-- ===== src/Engine.antt =====
-- packages/engine: the queue, the wire protocol and the process wrapper of an inference engine.
pub mod AsyncQueue
pub mod Stream
pub mod Protocol
pub mod Process
mod Shapes
mod Delivery
mod Lines
mod Linked
mod Links
mod Steps
mod Exit
mod Chunks
mod Wire
mod Examples
