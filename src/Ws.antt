-- ===== src/Ws.antt =====
-- src/ws and include/bintrade/ws: the WebSocket connection, its streams and their messages.
pub mod Parse
pub mod Socket
pub mod Client
pub mod User
pub mod Queue
pub mod Market
pub mod Typed
pub mod Consumer
