-- ===== src/Api.antt =====
-- The custom resources of api/v1alpha1.
pub mod Maps
pub mod Kube
pub mod Common
pub mod Ha
pub mod Dhcp4
pub mod Dhcp6
pub mod ControlAgent
pub mod Ddns
pub mod Stork
pub mod Server
pub mod Workloads
