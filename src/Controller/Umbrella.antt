-- ===== src/Controller/Umbrella.antt =====
-- internal/controller/keaserver_controller.go: the umbrella resource and its child resources.
pub mod Phase
pub mod Children
pub mod Cluster
pub mod Reconcile
