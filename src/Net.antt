-- ===== src/Net.antt =====
-- include/net and lib/net: sockets.
pub mod TcpSocket
pub mod HttpClient
pub mod WebSocketClient
mod Tests
