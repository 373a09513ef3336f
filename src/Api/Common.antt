-- ===== src/Api/Common.antt =====
-- api/v1alpha1/common_types.go: the parts that several custom resources share.
use kea_dhcp_operator.Base.{String, Bool, Option, List}
use kea_dhcp_operator.Base.Int.{ℤ}
use kea_dhcp_operator.Json.{Json}
use kea_dhcp_operator.Api.Kube.{Affinity, EnvVar, LocalObjectReference, RawJson}

pub record DatabaseConfig : Type 0 where
  pub kind : String
  pub persist : Option Bool
  pub name : String
  pub host : String
  pub port : Option ℤ
  pub credentials_secret_ref : Option LocalObjectReference
  pub connect_timeout : Option ℤ
  pub max_reconnect_tries : Option ℤ
  pub reconnect_wait_time : Option ℤ
  pub on_fail : String
  pub retry_on_startup : Option Bool
  pub lfc_interval : Option ℤ
  pub max_row_errors : Option ℤ
  pub read_only : Option Bool
  pub read_timeout : Option ℤ
  pub write_timeout : Option ℤ
  pub tcp_user_timeout : Option ℤ

pub record InterfacesConfig : Type 0 where
  pub interfaces : List String
  pub dhcp_socket_type : String
  pub outbound_interface : String
  pub re_detect : Option Bool
  pub service_sockets_require_all : Option Bool
  pub service_sockets_max_retries : Option ℤ
  pub service_sockets_retry_wait_time : Option ℤ

pub record OptionData : Type 0 where
  pub name : String
  pub code : Option ℤ
  pub space : String
  pub csv_format : Option Bool
  pub data_text : String
  pub always_send : Option Bool
  pub never_send : Option Bool

pub record OptionDef : Type 0 where
  pub name : String
  pub code : ℤ
  pub kind : String
  pub array : Option Bool
  pub record_types : String
  pub encapsulate : String
  pub space : String

pub record ClientClass : Type 0 where
  pub name : String
  pub test : String
  pub option_data : List OptionData
  pub only_if_required : Option Bool
  pub valid_lifetime : Option ℤ
  pub min_valid_lifetime : Option ℤ
  pub max_valid_lifetime : Option ℤ

pub record HookLibrary : Type 0 where
  pub library : String
  pub parameters : Option RawJson

pub record ControlSocket : Type 0 where
  pub socket_type : String
  pub socket_name : String
  pub socket_port : Option ℤ
  pub socket_address : String

pub record LogOutputOption : Type 0 where
  pub output : String
  pub maxsize : Option ℤ
  pub maxver : Option ℤ
  pub flush : Option Bool
  pub pattern : String

pub record LoggerConfig : Type 0 where
  pub name : String
  pub severity : String
  pub debug_level : Option ℤ
  pub output_options : List LogOutputOption

pub record Reservation : Type 0 where
  pub hw_address : String
  pub client_id : String
  pub duid : String
  pub circuit_id : String
  pub flex_id : String
  pub hostname : String
  pub ip_address : String
  pub ip_addresses : List String
  pub prefixes : List String
  pub option_data : List OptionData
  pub client_classes : List String
  pub next_server : String
  pub boot_file_name : String
  pub server_hostname : String

pub record RelayInfo : Type 0 where
  pub ip_addresses : List String

pub record PodPlacement : Type 0 where
  pub node_selector : List (String × String)
  pub tolerations : List Json
  pub affinity : Option Affinity
  pub pod_annotations : List (String × String)

pub record ContainerConfig : Type 0 where
  pub image : String
  pub image_pull_policy : String
  pub resources : Json
  pub image_pull_secrets : List LocalObjectReference

pub record TlsConfig : Type 0 where
  pub secret_ref : LocalObjectReference
  pub cert_required : Option Bool

pub record StorkAgentConfig : Type 0 where
  pub enabled : Bool
  pub image : String
  pub image_pull_policy : String
  pub resources : Json
  pub server_url : String
  pub server_token_secret_ref : Option LocalObjectReference
  pub stork_server_ref : Option LocalObjectReference
  pub port : Option ℤ
  pub prometheus_port : Option ℤ
  pub env : List EnvVar

pub record ConditionStatus : Type 0 where
  pub kind : String
  pub status : String
  pub last_transition_time : String
  pub reason : String
  pub message : String

pub record ComponentStatus : Type 0 where
  pub conditions : List ConditionStatus
  pub phase : String
  pub observed_generation : ℤ
  pub config_map_ref : String
  pub ready_replicas : ℤ
  pub config_hash : String
