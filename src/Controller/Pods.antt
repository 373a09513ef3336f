-- ===== src/Controller/Pods.antt =====
-- The parameters of a pod, out of the spec: `resolveDhcp4PodParams` and `resolveDhcp6PodParams` of
-- internal/controller, and the same lines of the reconcilers of the control agent and of DHCP-DDNS; and
-- the reading of Secrets and of a Stork server for the Stork agent.
use kea_dhcp_operator.Api.Kube.{Affinity}
use kea_dhcp_operator.Controller.Stork.{SecretData}
use kea_dhcp_operator.Api.Maps.{StringMap}
use kea_dhcp_operator.Base.Int.{ℤ, pos}
use kea_dhcp_operator.Api.Ha.{HaConfig}
use kea_dhcp_operator.Controller.Client.{found, not_found, get_failed, Fetched}
use kea_dhcp_operator.Base.{String, Bool, false, Option, none, some, List, [], get_or}
use kea_dhcp_operator.Json.{Json}
use kea_dhcp_operator.Api.Common.{ControlSocket, PodPlacement, TlsConfig}
use kea_dhcp_operator.Controller.Objects.{Resource, secret, secrets, Client}

pub record PodParams : Type 0 where
  pub image : String
  pub host_network : Bool
  pub node_selector : StringMap
  pub tolerations : List Json
  pub affinity : Option Affinity
  pub pod_annotations : StringMap
  pub tls_secret_name : String

abbrev no_placement : PodPlacement
no_placement = record {
  node_selector = [];
  tolerations = [];
  affinity = none;
  pod_annotations = [];
}

abbrev tls_secret : Option TlsConfig → String
tls_secret none = ""
tls_secret (some tls) = tls.secret_ref.name

unfoldable pub pod_params :
    String → Option Bool → Option PodPlacement → Option TlsConfig → PodParams
pod_params image host_network placement tls = record {
  image = image;
  host_network = get_or host_network false;
  node_selector = (get_or placement no_placement).node_selector;
  tolerations = (get_or placement no_placement).tolerations;
  affinity = (get_or placement no_placement).affinity;
  pod_annotations = (get_or placement no_placement).pod_annotations;
  tls_secret_name = tls_secret tls;
}

abbrev pub ha_tls : Option HaConfig → Option TlsConfig
ha_tls none = none
ha_tls (some ha) = ha.tls

-- `haPort`
unfoldable pub peer_port : Option ControlSocket → ℤ
peer_port none = pos 8000
peer_port (some cs) = get_or cs.socket_port (pos 8000)

abbrev data_of : Fetched Resource → Fetched SecretData
data_of (found (secret d)) = found d.entries
data_of (found r) = not_found
data_of not_found = not_found
data_of (get_failed e) = get_failed e

-- The Secrets among the objects, as a reader of their data sees them.
unfoldable pub get_secret_in :
    {Objects : Type 0} → Client Objects → Objects → String → String → Fetched SecretData
get_secret_in client s namespace name =
    data_of (client.get (record { kind = secrets; namespace = namespace; name = name }) s)
