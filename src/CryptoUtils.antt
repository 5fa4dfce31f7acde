-- ===== src/CryptoUtils.antt =====
-- src/crypto_utils.c and src/crypto_utils.h: base64 in full, and what the code makes of OpenSSL.
pub mod Base64
pub mod Hashes
pub mod Cipher
mod Examples
