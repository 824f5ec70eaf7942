-- ===== src/Sdk.antt =====
-- packages/sdk-js: the in-process client and the exposure buffer.
pub mod Client
pub mod Exposure
