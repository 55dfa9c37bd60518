-- ===== src/Conn.antt =====
-- internal/conn: configurations of nodes and the server's registry of its peers.
pub mod Config
pub mod Streams
pub mod Inbound
pub mod PeerVerifier
pub mod Pool
pub mod Nodes
pub mod Opening
pub mod Order
mod Tests
