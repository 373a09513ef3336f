-- ===== src/Api/Ha.antt =====
-- api/v1alpha1/ha_types.go: high availability.
use kea_dhcp_operator.Base.{String, Bool, Option, List}
use kea_dhcp_operator.Base.Int.{ℤ}
use kea_dhcp_operator.Api.Common.{TlsConfig}

pub record HaPeer : Type 0 where
  pub name : String
  pub url : String
  pub role : String
  pub address : String
  pub auto_failover : Option Bool

pub record HaMultiThreading : Type 0 where
  pub enable_multi_threading : Option Bool
  pub http_client_threads : Option ℤ
  pub http_listener_threads : Option ℤ

pub record HaConfig : Type 0 where
  pub this_server_name : String
  pub mode : String
  pub heartbeat_delay : Option ℤ
  pub max_response_delay : Option ℤ
  pub max_ack_delay : Option ℤ
  pub max_unacked_clients : Option ℤ
  pub peers : List HaPeer
  pub tls : Option TlsConfig
  pub send_lease_updates : Option Bool
  pub sync_leases : Option Bool
  pub sync_timeout : Option ℤ
  pub sync_page_limit : Option ℤ
  pub delayed_updates_limit : Option ℤ
  pub multi_threading : Option HaMultiThreading
