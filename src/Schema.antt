-- ===== src/Schema.antt =====
-- Readers of the rendered configuration, each the inverse of a renderer.
pub mod Options
pub mod Parts
pub mod Databases
pub mod Ha
pub mod Subnets4
pub mod Subnets6
pub mod Dhcp4
pub mod Dhcp6
pub mod Hooks
pub mod DatabaseHooks
pub mod Dhcp4Hooks
pub mod Dhcp6Hooks
pub mod Ddns
pub mod ControlAgent
pub mod AgentParts
