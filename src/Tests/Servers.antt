-- ===== src/Tests/Servers.antt =====
-- Test data: the resources of the reconciliations, and their clients.
use kea_dhcp_operator.Controller.Dhcp4.Nad.{Ipv4}
use kea_dhcp_operator.Api.ControlAgent.{KeaControlAgent, KeaControlAgentStatus}
use kea_dhcp_operator.Controller.Steps.{State}
use kea_dhcp_operator.Api.Dhcp6.{KeaDhcp6Server, KeaDhcp6ServerStatus}
use kea_dhcp_operator.Api.Dhcp4.{KeaDhcp4Server, KeaDhcp4ServerStatus}
use kea_dhcp_operator.Api.Ddns.{KeaDhcpDdns, KeaDhcpDdnsStatus}
use kea_dhcp_operator.Controller.Client.{OwnerApi}
use kea_dhcp_operator.Tests.Cluster.{Objects, only, no_objects}
use kea_dhcp_operator.Tests.Specs.{spec4, spec6, component, agent_spec, ddns_spec}
use kea_dhcp_operator.Api.Kube.{ObjectMeta}
use kea_dhcp_operator.Base.Int.{pos}
use kea_dhcp_operator.Base.{String, none, [], Option}

abbrev pub named : ObjectMeta
named = record { name = "site"; namespace = "net"; generation = pos 1 }

abbrev pub standard4 : KeaDhcp4Server
standard4 = record {
  meta = named;
  spec = record spec4 { high_availability = none };
  status = record { component = component; nad_addresses = [] };
}

abbrev pub server6 : KeaDhcp6Server
server6 = record { meta = named; spec = spec6; status = record { component = component } }

abbrev pub control_agent : KeaControlAgent
control_agent = record {
  meta = named;
  spec = agent_spec;
  status = record { component = component };
}

abbrev pub ddns : KeaDhcpDdns
ddns = record { meta = named; spec = ddns_spec; status = record { component = component } }

abbrev pub empty : {Owner : Type 0} → Owner → State Objects Owner
empty server = record { objects = no_objects; owners = server }

abbrev pub api4 : OwnerApi KeaDhcp4Server KeaDhcp4Server KeaDhcp4ServerStatus
api4 = only (λ server status. record server { status = status })

abbrev pub api6 : OwnerApi KeaDhcp6Server KeaDhcp6Server KeaDhcp6ServerStatus
api6 = only (λ server status. record server { status = status })

abbrev pub agents : OwnerApi KeaControlAgent KeaControlAgent KeaControlAgentStatus
agents = only (λ server status. record server { status = status })

abbrev pub ddns_api : OwnerApi KeaDhcpDdns KeaDhcpDdns KeaDhcpDdnsStatus
ddns_api = only (λ server status. record server { status = status })

abbrev pub no_parse : String → Option Ipv4
no_parse _ = none

abbrev pub no_host : String → Option String
no_host _ = none
