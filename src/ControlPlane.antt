-- ===== src/ControlPlane.antt =====
-- apps/control-plane: keys, what is checked and filtered when a ruleset is published, the database,
-- its queries and the HTTP routes.
pub mod Ruleset
pub mod Keys
pub mod Batch
pub mod Writer
pub mod Database
pub mod Repository
pub mod Migrations
pub mod Server
pub mod Samples
