-- ===== src/WebSocket.antt =====
-- servers/websocket/: frames, and the messages that are cut into frames.
pub mod Frame
pub mod Handler
pub mod Handshake
