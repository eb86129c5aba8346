-- ===== src/Experiment.antt =====
-- Experiments (pkg/experiment): their life cycle, their commands, and the job that starts and
-- finishes them.
pub mod Model
pub mod Operations
pub mod Command
pub mod Lifecycle
pub mod History
pub mod Events
pub mod Goals
pub mod Api
pub mod Requests
pub mod Period
pub mod Stored
pub mod Updater
