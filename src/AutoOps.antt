-- ===== src/AutoOps.antt =====
-- Automatic operations (pkg/autoops): the rules that turn a feature on or off, and their clauses.
pub mod Model
pub mod Operations
pub mod Command
pub mod Deletion
pub mod RoundTrip
pub mod Rates
pub mod Extraction
pub mod Execute
pub mod Watcher
pub mod Webhook
