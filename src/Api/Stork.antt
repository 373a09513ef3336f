-- ===== src/Api/Stork.antt =====
-- api/v1alpha1/keastorkserver_types.go: the Stork server.
use kea_dhcp_operator.Base.{String, Bool, Option}
use kea_dhcp_operator.Base.Int.{ℤ}
use kea_dhcp_operator.Api.Kube.{LocalObjectReference, ObjectMeta}
use kea_dhcp_operator.Api.Common.{ComponentStatus, ContainerConfig, PodPlacement}

pub record StorkServerDatabase : Type 0 where
  pub host : String
  pub port : Option ℤ
  pub name : String
  pub credentials_secret_ref : LocalObjectReference
  pub ssl_mode : String

pub record KeaStorkServerSpec : Type 0 where
  pub container : ContainerConfig
  pub replicas : Option ℤ
  pub database : StorkServerDatabase
  pub port : Option ℤ
  pub enable_metrics : Option Bool
  pub placement : Option PodPlacement

pub record KeaStorkServerStatus : Type 0 where
  pub component : ComponentStatus
  pub url : String
  pub admin_secret_name : String
  pub server_token_secret_name : String

pub record KeaStorkServer : Type 0 where
  pub meta : ObjectMeta
  pub spec : KeaStorkServerSpec
  pub status : KeaStorkServerStatus
