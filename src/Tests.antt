-- ===== src/Tests.antt =====
-- The theorems at concrete requests, configurations and responses.
pub mod Samples
pub mod Policy
pub mod Payload
pub mod Config
pub mod Runs
pub mod Abi
pub mod Patterns
pub mod Success
