-- ===== src/Control.antt =====
-- apps/web/lib/data: what the control plane does with its tables for the nodes.
pub mod Tables
pub mod Store
pub mod Specs
pub mod Nodes
pub mod Limits
pub mod Sorted
pub mod Receipts
pub mod Jobs
pub mod Payouts
pub mod Commands
pub mod TestServer
pub mod Chat
pub mod RateLimit
mod Routes
mod RateBounds
mod Queue
mod Drain
mod Rows
mod OwnJob
mod Completion
mod Emission
mod Coarse
mod Polls
mod Ownership
mod Claiming
mod Claims
mod DefaultPayout
mod Examples
mod ChatExamples
