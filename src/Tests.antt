-- ===== src/Tests.antt =====
-- Witnesses: each property at a concrete input.
mod Parts
mod Specs
mod Memory
mod Cluster
mod WorkloadTests
mod Servers
mod ReconcileTests
mod HaTests
mod StorkTests
mod SchemaTests
mod RenderTests
mod Dhcp4Tests
mod ConsoleTests
mod ControllerTests
