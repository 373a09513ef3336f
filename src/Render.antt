-- ===== src/Render.antt =====
-- The renderers of internal/kea: from the custom resources to Kea's JSON configuration.
pub mod Options
pub mod Parts
pub mod Hooks
pub mod Subnets4
pub mod Subnets6
pub mod Dhcp4
pub mod Dhcp6
pub mod ControlAgent
pub mod Ddns
