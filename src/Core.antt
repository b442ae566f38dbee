-- ===== src/Core.antt =====
-- m_core: the ciphers by name, and the key of a password.
pub mod Kdf
pub mod Pick
pub mod Runs
