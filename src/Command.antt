-- ===== src/Command.antt =====
-- pkg/feature/command: how a command changes a feature and which event it records.
pub mod Model
pub mod Handlers
pub mod Dispatch
pub mod Consistency
pub mod Events
