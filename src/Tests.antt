-- ===== src/Tests.antt =====
-- Runs of the models on small inputs, and the theorems applied there.
pub mod Varint
pub mod Hash
pub mod Proof
pub mod Verifier
pub mod Messages
pub mod LightClient
pub mod Nonces
pub mod Completeness
