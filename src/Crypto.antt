-- ===== src/Crypto.antt =====
-- shared/crypto.py: the encodings, the canonical bytes that are signed, and hybrid encryption.
pub mod Base64
pub mod Utf8
pub mod Json
pub mod Primitives
pub mod Signing
pub mod Hybrid
