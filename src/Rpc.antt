-- ===== src/Rpc.antt =====
-- The folder rpc.
pub mod Buffer
pub mod Marshal
pub mod Stream
pub mod Packet
pub mod Polling
pub mod Server
pub mod Client
pub mod Sockets
pub mod Unbounded
pub mod Udp
