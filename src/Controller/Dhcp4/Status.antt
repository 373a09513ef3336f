-- ===== src/Controller/Dhcp4/Status.antt =====
-- internal/controller/keadhcp4server_controller.go: `updateDhcp4Status`, up to the call that stores it.
use Prim.Native.Nat.{ℕ}
use kea_dhcp_operator.Base.{String, Option}
use kea_dhcp_operator.Base.Int.{pos}
use kea_dhcp_operator.Api.Dhcp4.{KeaDhcp4Server, KeaDhcp4ServerStatus}
use kea_dhcp_operator.Controller.Dhcp4.Nad.{Ipv4, nad_subnet, compute_nad_addresses}
use kea_dhcp_operator.Controller.Status.{component_status}
use kea_dhcp_operator.Resources.Names.{config_map_name}

module _ (parse_cidr_v4 : String → Option Ipv4) where
  -- `replicas` is at least 1 by the rules of the resource.
  unfoldable pub update_dhcp4_status :
      String → String → String → ℕ → ℕ → KeaDhcp4Server → KeaDhcp4ServerStatus
  update_dhcp4_status now component config_hash ready_replicas replicas server = record {
    component =
        component_status now config_hash (config_map_name server.meta.name component)
          server.meta.generation (pos ready_replicas) (pos replicas) server.status.component;
    nad_addresses = compute_nad_addresses parse_cidr_v4 (nad_subnet server) replicas;
  }
