-- ===== src/Segment.antt =====
-- Segments of users (pkg/feature/domain/segment.go, pkg/feature/command/segment.go).
pub mod Model
pub mod Operations
pub mod Command
pub mod Sound
pub mod Edits
pub mod Fresh
pub mod Commands
