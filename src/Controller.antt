-- ===== src/Controller.antt =====
-- The reconcilers of internal/controller.
pub mod Conditions
pub mod Status
pub mod Client
pub mod Objects
pub mod Setup
pub mod Steps
pub mod Pods
pub mod Environment
pub mod Dhcp6
pub mod Agent
pub mod Ddns
pub mod StorkServer
pub mod Umbrella
pub mod Dhcp4
pub mod Stork
pub mod Secrets
pub mod SecretPlaceholders
