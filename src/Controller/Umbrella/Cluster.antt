-- ===== src/Controller/Umbrella/Cluster.antt =====
-- The cluster as internal/controller/keaserver_controller.go sees it: the stores of the umbrella
-- resource and of its five kinds of children, and the client's calls on them.
use kea_dhcp_operator.Api.ControlAgent.{KeaControlAgent, KeaControlAgentSpec}
use kea_dhcp_operator.Api.Ddns.{KeaDhcpDdns, KeaDhcpDdnsSpec}
use kea_dhcp_operator.Api.Dhcp4.{KeaDhcp4Server, KeaDhcp4ServerSpec}
use kea_dhcp_operator.Api.Dhcp6.{KeaDhcp6Server, KeaDhcp6ServerSpec}
use kea_dhcp_operator.Api.Server.{KeaServer, KeaServerStatus}
use kea_dhcp_operator.Api.Stork.{KeaStorkServer, KeaStorkServerSpec}
use kea_dhcp_operator.Controller.Client.{ChildApi, IsFaithful, OwnerApi}

module _ (Dhcp4s Dhcp6s Agents Ddnss Storks Servers : Type 0) where
  -- The objects of the cluster, by kind.
  pub record Cluster : Type 0 where
    pub dhcp4s : Dhcp4s
    pub dhcp6s : Dhcp6s
    pub agents : Agents
    pub ddnss : Ddnss
    pub storks : Storks
    pub servers : Servers

  pub record Apis : Type 0 where
    pub dhcp4 : ChildApi Dhcp4s KeaDhcp4Server KeaDhcp4ServerSpec
    pub dhcp6 : ChildApi Dhcp6s KeaDhcp6Server KeaDhcp6ServerSpec
    pub agent : ChildApi Agents KeaControlAgent KeaControlAgentSpec
    pub ddns : ChildApi Ddnss KeaDhcpDdns KeaDhcpDdnsSpec
    pub stork : ChildApi Storks KeaStorkServer KeaStorkServerSpec
    pub server : OwnerApi Servers KeaServer KeaServerStatus

  pub record AreFaithful (apis : Apis) : Type 0 where
    pub dhcp4 : IsFaithful apis.dhcp4 (λ c. c.spec)
    pub dhcp6 : IsFaithful apis.dhcp6 (λ c. c.spec)
    pub agent : IsFaithful apis.agent (λ c. c.spec)
    pub ddns : IsFaithful apis.ddns (λ c. c.spec)
    pub stork : IsFaithful apis.stork (λ c. c.spec)
