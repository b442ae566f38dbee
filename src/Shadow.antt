-- ===== src/Shadow.antt =====
-- The Shadowsocks AEAD layer (m_shadow): ciphers, the encrypted stream, encrypted packets.
pub mod Aead
pub mod Cipher
pub mod Nonce
pub mod Frame
pub mod Writer
pub mod Reader
pub mod RoundTrip
pub mod Distinct
pub mod Conn
pub mod Packet
pub mod Toy
mod Runs
