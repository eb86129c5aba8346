-- ===== src/Feature/WellFormed/Variations.antt =====
-- The operations of Feature/Variations on consistent features (pkg/feature/domain/feature.go).
mod Add
mod Extended
mod Reduced
mod Remove
mod Removed
pub use Add.*
pub use Extended.*
pub use Reduced.*
pub use Remove.*
pub use Removed.*
