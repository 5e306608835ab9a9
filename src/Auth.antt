-- ===== src/Auth.antt =====
-- src/auth and include/bintrade/auth: the key pair and the request signature.
pub mod Credentials
pub mod Signer
