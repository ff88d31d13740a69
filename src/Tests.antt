-- ===== src/Tests.antt =====
-- The theorems at concrete inputs, one file for each part of src that they are about.
pub mod Stores
pub mod Request
pub mod Audit
pub mod Auth
pub mod Transport
pub mod Trust
pub mod Hashcash
pub mod Honeypot
pub mod Policy
pub mod Enrollment
pub mod Gateway
pub mod Mfa
pub mod Proxy
