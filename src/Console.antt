-- ===== src/Console.antt =====
-- apps/console: the state of the dashboard's ruleset stream.
pub mod Stream
