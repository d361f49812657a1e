-- ===== src/Models.antt =====
-- packages/db: the models of the tables that clients, providers, aggregators and jobs have.
pub mod Rows
pub mod Jobs
pub mod JobQueries
pub mod Nodes
pub mod Kinds
pub mod Searches
pub mod Connection
mod Values
mod Updates
mod Status
mod Lifecycle
mod Registered
mod Registration
mod Offers
mod Naming
mod Examples
mod ConnectionExamples
