-- ===== src/Api/Dhcp6.antt =====
-- api/v1alpha1/keadhcp6server_types.go: the DHCPv6 server.
use kea_dhcp_operator.Base.{String, Bool, Option, List}
use kea_dhcp_operator.Base.Int.{ℤ}
use kea_dhcp_operator.Api.Kube.{ObjectMeta}
use kea_dhcp_operator.Api.Common.{
  ClientClass, ComponentStatus, ContainerConfig, ControlSocket, DatabaseConfig, HookLibrary,
  InterfacesConfig, LoggerConfig, OptionData, OptionDef, PodPlacement, RelayInfo, Reservation,
  StorkAgentConfig,
}
use kea_dhcp_operator.Api.Dhcp4.{MultiThreadingConfig}
use kea_dhcp_operator.Api.Ha.{HaConfig}

pub record Pool6 : Type 0 where
  pub pool : String
  pub option_data : List OptionData
  pub client_class : String
  pub require_client_classes : List String

pub record PdPool : Type 0 where
  pub prefix : String
  pub prefix_len : ℤ
  pub delegated_len : ℤ
  pub excluded_prefix : String
  pub excluded_prefix_len : Option ℤ
  pub option_data : List OptionData
  pub client_class : String

pub record Subnet6 : Type 0 where
  pub id : ℤ
  pub subnet : String
  pub pools : List Pool6
  pub pd_pools : List PdPool
  pub option_data : List OptionData
  pub reservations : List Reservation
  pub client_class : String
  pub require_client_classes : List String
  pub interface : String
  pub interface_id : String
  pub relay : Option RelayInfo
  pub preferred_lifetime : Option ℤ
  pub valid_lifetime : Option ℤ
  pub min_valid_lifetime : Option ℤ
  pub max_valid_lifetime : Option ℤ
  pub renew_timer : Option ℤ
  pub rebind_timer : Option ℤ
  pub rapid_commit : Option Bool
  pub reservation_mode : String

pub record SharedNetwork6 : Type 0 where
  pub name : String
  pub subnet6 : List Subnet6
  pub interface : String
  pub interface_id : String
  pub option_data : List OptionData
  pub relay : Option RelayInfo
  pub client_class : String
  pub preferred_lifetime : Option ℤ
  pub valid_lifetime : Option ℤ
  pub renew_timer : Option ℤ
  pub rebind_timer : Option ℤ
  pub rapid_commit : Option Bool

pub record KeaDhcp6ServerSpec : Type 0 where
  pub container : ContainerConfig
  pub replicas : Option ℤ
  pub placement : Option PodPlacement
  pub host_network : Option Bool
  pub interfaces_config : InterfacesConfig
  pub lease_database : Option DatabaseConfig
  pub hosts_database : Option DatabaseConfig
  pub hosts_databases : List DatabaseConfig
  pub subnet6 : List Subnet6
  pub shared_networks : List SharedNetwork6
  pub option_data : List OptionData
  pub option_def : List OptionDef
  pub client_classes : List ClientClass
  pub reservations : List Reservation
  pub host_reservation_identifiers : List String
  pub hooks_libraries : List HookLibrary
  pub control_socket : Option ControlSocket
  pub loggers : List LoggerConfig
  pub preferred_lifetime : Option ℤ
  pub valid_lifetime : Option ℤ
  pub min_valid_lifetime : Option ℤ
  pub max_valid_lifetime : Option ℤ
  pub renew_timer : Option ℤ
  pub rebind_timer : Option ℤ
  pub calculate_tee_times : Option Bool
  pub t1_percent : Option String
  pub t2_percent : Option String
  pub server_tag : String
  pub rapid_commit : Option Bool
  pub ddns_send_updates : Option Bool
  pub ddns_qualifying_suffix : String
  pub high_availability : Option HaConfig
  pub multi_threading : Option MultiThreadingConfig
  pub stork : Option StorkAgentConfig

pub record KeaDhcp6ServerStatus : Type 0 where
  pub component : ComponentStatus

pub record KeaDhcp6Server : Type 0 where
  pub meta : ObjectMeta
  pub spec : KeaDhcp6ServerSpec
  pub status : KeaDhcp6ServerStatus
