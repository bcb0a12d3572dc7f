-- ===== src/Tests.antt =====
-- Runs of the definitions, and the theorems at concrete inputs.
mod Fixtures
mod SignatureCodec
mod Codecs
mod Signing
mod Reading
mod Encrypting
mod Decrypting
mod Drawing
mod Opening
mod Framing
