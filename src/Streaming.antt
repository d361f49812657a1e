-- ===== src/Streaming.antt =====
-- apps/web/lib/data/chat-stream.js: the events of a chat job as they reach its client.
pub mod Events
pub mod Live
pub mod Fallback
mod Order
mod Finals
mod Ordered
mod Examples
