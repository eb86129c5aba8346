-- ===== src/Api.antt =====
-- pkg/feature/api: what the service checks of a request before it runs the commands.
pub mod Model
pub mod Identifiers
pub mod Validation
pub mod Targeting
pub mod Checks
pub mod Admitted
pub mod Creation
pub mod DefaultStrategy
pub mod Prerequisites
pub mod Stored
