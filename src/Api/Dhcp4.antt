-- ===== src/Api/Dhcp4.antt =====
-- api/v1alpha1/keadhcp4server_types.go: the DHCPv4 server.
use kea_dhcp_operator.Base.{String, Bool, Option, List}
use kea_dhcp_operator.Base.Int.{ℤ}
use kea_dhcp_operator.Api.Kube.{ObjectMeta}
use kea_dhcp_operator.Api.Common.{
  ClientClass, ComponentStatus, ContainerConfig, ControlSocket, DatabaseConfig, HookLibrary,
  InterfacesConfig, LoggerConfig, OptionData, OptionDef, PodPlacement, RelayInfo, Reservation,
  StorkAgentConfig,
}
use kea_dhcp_operator.Api.Ha.{HaConfig}

pub record Pool4 : Type 0 where
  pub pool : String
  pub option_data : List OptionData
  pub client_class : String
  pub require_client_classes : List String

pub record Subnet4 : Type 0 where
  pub id : ℤ
  pub subnet : String
  pub pools : List Pool4
  pub option_data : List OptionData
  pub reservations : List Reservation
  pub client_class : String
  pub require_client_classes : List String
  pub interface : String
  pub relay : Option RelayInfo
  pub valid_lifetime : Option ℤ
  pub min_valid_lifetime : Option ℤ
  pub max_valid_lifetime : Option ℤ
  pub renew_timer : Option ℤ
  pub rebind_timer : Option ℤ
  pub authoritative : Option Bool
  pub reservation_mode : String
  pub match_client_id : Option Bool
  pub next_server : String
  pub boot_file_name : String
  pub server_hostname : String
  pub user_context : String

pub record SharedNetwork4 : Type 0 where
  pub name : String
  pub subnet4 : List Subnet4
  pub interface : String
  pub option_data : List OptionData
  pub relay : Option RelayInfo
  pub client_class : String
  pub require_client_classes : List String
  pub valid_lifetime : Option ℤ
  pub min_valid_lifetime : Option ℤ
  pub max_valid_lifetime : Option ℤ
  pub renew_timer : Option ℤ
  pub rebind_timer : Option ℤ
  pub authoritative : Option Bool

pub record MultiThreadingConfig : Type 0 where
  pub enable_multi_threading : Option Bool
  pub thread_pool_size : Option ℤ
  pub packet_queue_size : Option ℤ

pub record KeaDhcp4ServerSpec : Type 0 where
  pub container : ContainerConfig
  pub replicas : Option ℤ
  pub placement : Option PodPlacement
  pub host_network : Option Bool
  pub interfaces_config : InterfacesConfig
  pub lease_database : Option DatabaseConfig
  pub hosts_database : Option DatabaseConfig
  pub hosts_databases : List DatabaseConfig
  pub subnet4 : List Subnet4
  pub shared_networks : List SharedNetwork4
  pub option_data : List OptionData
  pub option_def : List OptionDef
  pub client_classes : List ClientClass
  pub reservations : List Reservation
  pub host_reservation_identifiers : List String
  pub hooks_libraries : List HookLibrary
  pub control_socket : Option ControlSocket
  pub loggers : List LoggerConfig
  pub valid_lifetime : Option ℤ
  pub min_valid_lifetime : Option ℤ
  pub max_valid_lifetime : Option ℤ
  pub renew_timer : Option ℤ
  pub rebind_timer : Option ℤ
  pub calculate_tee_times : Option Bool
  pub t1_percent : Option String
  pub t2_percent : Option String
  pub authoritative : Option Bool
  pub match_client_id : Option Bool
  pub server_tag : String
  pub next_server : String
  pub boot_file_name : String
  pub server_hostname : String
  pub ddns_send_updates : Option Bool
  pub ddns_override_no_update : Option Bool
  pub ddns_override_client_update : Option Bool
  pub ddns_replace_client_name : String
  pub ddns_generated_prefix : String
  pub ddns_qualifying_suffix : String
  pub ddns_use_conflict_resolution : Option Bool
  pub high_availability : Option HaConfig
  pub multi_threading : Option MultiThreadingConfig
  pub stork : Option StorkAgentConfig

pub record KeaDhcp4ServerStatus : Type 0 where
  pub component : ComponentStatus
  pub nad_addresses : List String

pub record KeaDhcp4Server : Type 0 where
  pub meta : ObjectMeta
  pub spec : KeaDhcp4ServerSpec
  pub status : KeaDhcp4ServerStatus
