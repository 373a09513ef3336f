-- ===== src/Resources.antt =====
-- The builders of internal/resources.
pub mod Names
pub mod Labels
pub mod Stork
pub mod Images
pub mod Services
pub mod StorkServer
pub mod WellFormed
pub mod Deployment
pub mod StatefulSet
pub mod Selectors
pub mod Validate
pub mod ShellSafety
