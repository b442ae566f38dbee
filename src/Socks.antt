-- ===== src/Socks.antt =====
-- The SOCKS protocol (m_socks/socks5.go): addresses and the handshake.
pub mod Strconv
pub mod Addr
pub mod HandShake
pub mod Handler
mod Runs
