-- ===== src/Core.antt =====
-- packages/core: the wire types, the hash, bucketing, operators, evaluation and payload filtering.
pub mod Samples
pub mod Types
pub mod Utf8
pub mod Murmur
pub mod Bucketing
pub mod Operators
pub mod Evaluate
pub mod Visibility
