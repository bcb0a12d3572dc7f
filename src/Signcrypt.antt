-- ===== src/Signcrypt.antt =====
-- signcrypt_seal.go and signcrypt_open.go.
pub mod Keys
pub mod Sealing
pub mod Finding
pub mod Opening
pub mod Runs
pub mod Chunks
pub mod Receivers
pub mod Search
pub mod Checks
pub mod Senders
pub mod RoundTrip
