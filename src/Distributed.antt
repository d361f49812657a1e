-- ===== src/Distributed.antt =====
-- packages/inference/src/distributed: inference that is spread over several workers.
pub mod State
pub mod Assign
pub mod Jobs
pub mod Settle
pub mod Registry
pub mod Wire
pub mod Node
pub mod Part
mod Layers
mod Selection
mod Settlement
mod Accounting
mod Handlers
mod Runs
mod Shares
mod Pairs
mod PairSteps
mod Duties
mod Examples
mod NodeExamples
