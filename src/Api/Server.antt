-- ===== src/Api/Server.antt =====
-- api/v1alpha1/keaserver_types.go: the umbrella resource.
use kea_dhcp_operator.Base.{String, Bool, Option, List}
use kea_dhcp_operator.Base.Int.{ℤ}
use kea_dhcp_operator.Api.Kube.{ObjectMeta}
use kea_dhcp_operator.Api.Common.{ConditionStatus}
use kea_dhcp_operator.Api.ControlAgent.{KeaControlAgentSpec}
use kea_dhcp_operator.Api.Ddns.{KeaDhcpDdnsSpec}
use kea_dhcp_operator.Api.Dhcp4.{KeaDhcp4ServerSpec}
use kea_dhcp_operator.Api.Dhcp6.{KeaDhcp6ServerSpec}
use kea_dhcp_operator.Api.Stork.{KeaStorkServerSpec}

pub record KeaServerSpec : Type 0 where
  pub dhcp4 : Option KeaDhcp4ServerSpec
  pub dhcp6 : Option KeaDhcp6ServerSpec
  pub control_agent : Option KeaControlAgentSpec
  pub dhcp_ddns : Option KeaDhcpDdnsSpec
  pub stork_server : Option KeaStorkServerSpec

pub record KeaServerStatus : Type 0 where
  pub conditions : List ConditionStatus
  pub observed_generation : ℤ
  pub phase : String
  pub dhcp4_ready : Bool
  pub dhcp6_ready : Bool
  pub control_agent_ready : Bool
  pub dhcp_ddns_ready : Bool
  pub stork_server_ready : Bool

pub record KeaServer : Type 0 where
  pub meta : ObjectMeta
  pub spec : KeaServerSpec
  pub status : KeaServerStatus
