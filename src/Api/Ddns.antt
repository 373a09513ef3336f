-- ===== src/Api/Ddns.antt =====
-- api/v1alpha1/keadhcpddns_types.go: the DHCP-DDNS server.
use kea_dhcp_operator.Base.{String, Option, List}
use kea_dhcp_operator.Base.Int.{ℤ}
use kea_dhcp_operator.Api.Kube.{ObjectMeta, SecretKeySelector}
use kea_dhcp_operator.Api.Common.{
  ComponentStatus, ContainerConfig, ControlSocket, HookLibrary, LoggerConfig, PodPlacement,
}

pub record TsigKey : Type 0 where
  pub name : String
  pub algorithm : String
  pub digest_bits : Option ℤ
  pub secret_ref : Option SecretKeySelector

pub record DnsServer : Type 0 where
  pub ip_address : String
  pub port : Option ℤ

pub record DdnsDomain : Type 0 where
  pub name : String
  pub key_name : String
  pub dns_servers : List DnsServer

pub record DdnsConfig : Type 0 where
  pub ddns_domains : List DdnsDomain

pub record KeaDhcpDdnsSpec : Type 0 where
  pub container : ContainerConfig
  pub replicas : Option ℤ
  pub placement : Option PodPlacement
  pub ip_address : String
  pub port : Option ℤ
  pub dns_server_timeout : Option ℤ
  pub ncr_protocol : String
  pub ncr_format : String
  pub tsig_keys : List TsigKey
  pub forward_ddns : Option DdnsConfig
  pub reverse_ddns : Option DdnsConfig
  pub control_socket : Option ControlSocket
  pub hooks_libraries : List HookLibrary
  pub loggers : List LoggerConfig

pub record KeaDhcpDdnsStatus : Type 0 where
  pub component : ComponentStatus

pub record KeaDhcpDdns : Type 0 where
  pub meta : ObjectMeta
  pub spec : KeaDhcpDdnsSpec
  pub status : KeaDhcpDdnsStatus
