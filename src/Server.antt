-- ===== src/Server.antt =====
-- m_server: the connections and the loops of the two halves of the proxy.
pub mod Cork
pub mod Accept
pub mod Tunnel
pub mod Relay
pub mod Start
mod Runs
