-- ===== src/Controller/Dhcp4.antt =====
-- internal/controller/keadhcp4server_controller.go, and what of reconciler.go it calls.
pub mod Peers
pub mod Nad
pub mod Status
pub mod Credentials
pub mod Placeholders
pub mod HaConfigs
pub mod Workload
pub mod Reconcile
pub mod Deployed
pub mod Success
pub mod HaWorkload
pub mod HaDeployed
pub mod HaWritten
pub mod SafeHosts
