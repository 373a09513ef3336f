-- ===== src/Api/Workloads.antt =====
-- The objects of Kubernetes that the builders of internal/resources make, with the fields that they
-- set. An int32 that the builders only pass on is an integer.
use kea_dhcp_operator.Base.{String, Bool, Option, List}
use kea_dhcp_operator.Base.Int.{ℤ}
use kea_dhcp_operator.Json.{Json}
use kea_dhcp_operator.Api.Maps.{StringMap}
use kea_dhcp_operator.Api.Kube.{Affinity, EnvVar, LocalObjectReference}

pub record Meta : Type 0 where
  pub name : String
  pub namespace : String
  pub labels : StringMap

pub data VolumeSource : Type 0 where
  config_map : String → VolumeSource
  secret : String → VolumeSource
  empty_dir : VolumeSource

pub record Volume : Type 0 where
  pub name : String
  pub source : VolumeSource

pub record VolumeMount : Type 0 where
  pub name : String
  pub mount_path : String
  pub read_only : Bool

pub record ContainerPort : Type 0 where
  pub name : String
  pub container_port : ℤ
  pub protocol : String

-- SecurityContext.Capabilities
pub record Capabilities : Type 0 where
  pub drop : List String
  pub add : List String

-- An HTTP probe.
pub record Probe : Type 0 where
  pub path : String
  pub port : String
  pub initial_delay_seconds : ℤ
  pub period_seconds : ℤ

pub record Container : Type 0 where
  pub name : String
  pub image : String
  pub image_pull_policy : String
  pub command : List String
  pub env : List EnvVar
  pub resources : Json
  pub ports : List ContainerPort
  pub volume_mounts : List VolumeMount
  pub readiness_probe : Option Probe
  pub liveness_probe : Option Probe
  pub capabilities : Capabilities

pub record PodSpec : Type 0 where
  pub service_account_name : String
  pub host_network : Bool
  pub share_process_namespace : Option Bool
  pub init_containers : List Container
  pub containers : List Container
  pub volumes : List Volume
  pub node_selector : StringMap
  pub tolerations : List Json
  pub affinity : Option Affinity
  pub image_pull_secrets : List LocalObjectReference

pub record PodTemplate : Type 0 where
  pub labels : StringMap
  pub annotations : StringMap
  pub spec : PodSpec

pub record DeploymentSpec : Type 0 where
  pub replicas : Option ℤ
  pub match_labels : StringMap
  pub template : PodTemplate

pub record Deployment : Type 0 where
  pub meta : Meta
  pub spec : DeploymentSpec

pub record StatefulSetSpec : Type 0 where
  pub service_name : String
  pub pod_management_policy : String
  pub replicas : Option ℤ
  pub match_labels : StringMap
  pub template : PodTemplate

pub record StatefulSet : Type 0 where
  pub meta : Meta
  pub spec : StatefulSetSpec

-- intstr.IntOrString
pub data TargetPort : Type 0 where
  by_number : ℤ → TargetPort
  by_name : String → TargetPort

pub record ServicePort : Type 0 where
  pub name : String
  pub port : ℤ
  pub target_port : TargetPort
  pub protocol : String

pub record ServiceSpec : Type 0 where
  pub cluster_ip : String
  pub cluster_ips : List String
  pub publish_not_ready_addresses : Bool
  pub selector : StringMap
  pub ports : List ServicePort

pub record Service : Type 0 where
  pub meta : Meta
  pub spec : ServiceSpec

pub record ServiceAccount : Type 0 where
  pub meta : Meta

-- A ConfigMap, or a Secret: its data.
pub record DataObject : Type 0 where
  pub meta : Meta
  pub entries : StringMap

-- The selector, and the port, the path and the interval of the one endpoint.
pub record PodMonitorSpec : Type 0 where
  pub match_labels : StringMap
  pub port : String
  pub path : String
  pub interval : String

pub record PodMonitor : Type 0 where
  pub meta : Meta
  pub spec : PodMonitorSpec

pub record Subject : Type 0 where
  pub kind : String
  pub name : String
  pub namespace : String

pub record RoleRef : Type 0 where
  pub api_group : String
  pub kind : String
  pub name : String

pub record RoleBinding : Type 0 where
  pub meta : Meta
  pub role_ref : RoleRef
  pub subjects : List Subject

-- The spec of an OpenShift Route: its target Service and port, and how TLS ends.
pub record RouteSpec : Type 0 where
  pub service : String
  pub target_port : String
  pub termination : String

pub record Route : Type 0 where
  pub meta : Meta
  pub spec : RouteSpec
