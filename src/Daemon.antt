-- ===== src/Daemon.antt =====
-- apps/cli: the daemon of a node.
pub mod Upload
pub mod State
pub mod Loop
pub mod Commands
mod Places
mod Ring
mod Counts
mod Reached
mod Quiet
mod Batches
mod Posted
mod Stored
mod Accepted
mod Examples
