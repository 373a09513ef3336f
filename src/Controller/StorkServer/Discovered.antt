-- ===== src/Controller/StorkServer/Discovered.antt =====
-- What the Stork agent of a server learns of the Stork server that its reconciler finds:
-- `resolveStorkServer` of internal/controller/reconciler.go against the Service and the Secret that
-- internal/controller/keastorkserver_controller.go makes.
use kea_dhcp_operator.Controller.StorkServer.{stork_server_params, common_labels}
use kea_dhcp_operator.Base.Decimal.{decimal_ℤ}
use kea_dhcp_operator.Resources.StorkServer.{
  build_stork_server_service, build_stork_server_token_secret,
}
use kea_dhcp_operator.Api.Kube.{LocalObjectReference}
use kea_dhcp_operator.Api.Workloads.{Service, DataObject, ServicePort}
use kea_dhcp_operator.Api.Stork.{KeaStorkServer}
use mathlib.Core.Option
use kea_dhcp_operator.Base.{String, Option, none, some, List, ◌<>◌, get_elem?}
use kea_dhcp_operator.Controller.Client.{Fetched, found, not_found, get_failed}

abbrev if_found : Fetched KeaStorkServer → Option KeaStorkServer
if_found (found server) = some server
if_found not_found = none
if_found (get_failed e) = none

abbrev first_of : Option (List KeaStorkServer) → Option KeaStorkServer
first_of none = none
first_of (some servers) = get_elem? servers 0

-- Where a Service is reached inside the cluster, at its first port.
abbrev pub service_url : Service → Option String
service_url svc =
    Option.map
      (λ (port : ServicePort).
        "http://"
        <> svc.meta.name
        <> "."
        <> svc.meta.namespace
        <> ".svc.cluster.local:"
        <> decimal_ℤ port.port)
      (get_elem? svc.spec.ports 0)

-- The Service of a Stork server, and the Secret with a token of its own.
abbrev pub stork_service : KeaStorkServer → Service
stork_service server =
    build_stork_server_service server.meta.namespace server.meta.name
      (stork_server_params server).port

abbrev pub token_secret : KeaStorkServer → String → DataObject
token_secret server token =
    build_stork_server_token_secret server.meta.namespace
      (stork_server_params server).server_token_secret_name
      (common_labels server.meta.name "stork-server") token

module _ (get_stork : String → String → Fetched KeaStorkServer)
    (list_storks : String → Option (List KeaStorkServer)) where
  -- The server that a reference names; without one the first of the namespace.
  abbrev pub stork_of : String → Option LocalObjectReference → Option KeaStorkServer
  stork_of namespace (some ref) = if_found (get_stork namespace ref.name)
  stork_of namespace none = first_of (list_storks namespace)
