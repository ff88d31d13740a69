-- ===== src/Stores.antt =====
-- The in-memory stores of the gateway, maps with an expiry that is checked on reading.
pub mod Nonces
pub mod Revocation
pub mod Fingerprints
