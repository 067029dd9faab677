-- ===== src/Crypto.antt =====
-- The cryptography under core/protocol/inc/crypto and core/protocol/src/crypto.
pub mod Primitives
pub mod Aes
pub mod Cmac
pub mod Service
pub mod MicService
