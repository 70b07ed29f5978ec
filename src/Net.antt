-- ===== src/Net.antt =====
-- The sockets.
pub mod Transport
pub mod Read
pub mod Write
pub mod Socket
pub mod System
pub mod ServerSocket
pub mod ClientSocket
pub mod TlsContext
pub mod TlsSocket
pub mod Acceptor
pub mod Server
pub mod Connection
pub mod Sockets
