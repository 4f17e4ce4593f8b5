-- ===== src/Ecdh.antt =====
-- ecdh: public keys, software keys, and key pairs for the Noise library.
pub mod PublicKey
pub mod Software
pub mod Exchange
pub mod Check
pub mod Pkcs11
pub mod Applese
