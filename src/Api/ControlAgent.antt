-- ===== src/Api/ControlAgent.antt =====
-- api/v1alpha1/keacontrolagent_types.go: the Kea control agent.
use kea_dhcp_operator.Base.{String, Option, List}
use kea_dhcp_operator.Base.Int.{ℤ}
use kea_dhcp_operator.Api.Kube.{LocalObjectReference, ObjectMeta, SecretKeySelector}
use kea_dhcp_operator.Api.Common.{
  ComponentStatus, ContainerConfig, ControlSocket, HookLibrary, LoggerConfig, PodPlacement,
  TlsConfig,
}

pub record AgentControlSockets : Type 0 where
  pub dhcp4 : Option ControlSocket
  pub dhcp6 : Option ControlSocket
  pub d2 : Option ControlSocket

pub record AuthClient : Type 0 where
  pub user : String
  pub password_secret_key_ref : Option SecretKeySelector

pub record AuthConfig : Type 0 where
  pub kind : String
  pub realm : String
  pub clients : List AuthClient
  pub credentials_secret_ref : Option LocalObjectReference

pub record KeaControlAgentSpec : Type 0 where
  pub container : ContainerConfig
  pub replicas : Option ℤ
  pub placement : Option PodPlacement
  pub http_host : String
  pub http_port : Option ℤ
  pub tls : Option TlsConfig
  pub control_sockets : Option AgentControlSockets
  pub authentication : Option AuthConfig
  pub hooks_libraries : List HookLibrary
  pub loggers : List LoggerConfig

pub record KeaControlAgentStatus : Type 0 where
  pub component : ComponentStatus

pub record KeaControlAgent : Type 0 where
  pub meta : ObjectMeta
  pub spec : KeaControlAgentSpec
  pub status : KeaControlAgentStatus
