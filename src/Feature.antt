-- ===== src/Feature.antt =====
-- pkg/feature/domain: feature flags.
pub mod Model
pub mod Lookup
pub mod Settings
pub mod LastUsed
pub mod Targets
pub mod Rules
pub mod Clauses
pub mod Variations
pub mod Prerequisites
pub mod Create
pub mod WellFormed
