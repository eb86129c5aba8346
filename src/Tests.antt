-- ===== src/Tests.antt =====
-- Concrete runs of the development's theorems.
mod Database
pub mod Samples
pub mod Features
pub mod Commands
pub mod Evaluations
pub mod Requests
pub mod Experiments
pub mod Goals
pub mod Segments
pub mod AutoOperations
pub mod Executions
pub mod Webhooks
