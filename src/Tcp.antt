-- ===== src/Tcp.antt =====
-- network/tcp_net/: the connections of the TCP server.
pub mod Conn
pub mod Packet
pub mod Reader
pub mod Writer
pub mod Server
pub mod Expiry
pub mod Listener
