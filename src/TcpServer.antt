-- ===== src/TcpServer.antt =====
-- The echo server of TCPServer/: its byte strings, its sockets, and the loop over the events.
pub mod Message
pub mod Socket
pub mod Echo
pub mod Replies
pub mod Reading
pub mod Serving
pub mod Watching
pub mod Loop
mod Tests
