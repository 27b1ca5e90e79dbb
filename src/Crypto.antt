-- ===== src/Crypto.antt =====
-- hotstuff/crypto: certificates. The key generation of crypto_utils.cc is a call of libsodium.
pub mod Certs
