-- ===== src/Controller/StorkServer.antt =====
-- internal/controller/keastorkserver_controller.go: `Reconcile`. crypto/rand with base64 is a parameter, and
-- so is the content of the Route as the API server has it.
pub mod Kept
pub mod Discovered
use kea_dhcp_operator.Controller.Status.{component_status}
use kea_dhcp_operator.Resources.Labels.{common_labels}
use kea_dhcp_operator.Api.Common.{ComponentStatus}
use kea_dhcp_operator.Resources.StorkServer.{
  StorkServerParams, build_stork_server_route, build_stork_server_token_secret,
  build_stork_server_deployment, build_stork_server_admin_secret, build_stork_server_service,
  default_stork_server_port,
}
use kea_dhcp_operator.Resources.Names.{
  stork_server_token_secret_name, stork_admin_secret_name, service_name, deployment_name,
  service_account_name,
}
use kea_dhcp_operator.Api.Workloads.{DataObject}
use kea_dhcp_operator.Api.Stork.{KeaStorkServer, KeaStorkServerStatus, StorkServerDatabase}
use kea_dhcp_operator.Controller.Pods.{pod_params, PodParams}
use kea_dhcp_operator.Controller.Steps.{
  skip, reading, own, on_objects, when_run, passed_over, update_status, State, service_account_step,
  ready_replicas, replicas_or_one,
}
use kea_dhcp_operator.Controller.Objects.{
  secret, secrets, deployment, deployments, service, reconcile_route, Key, Client, Resource,
}
use kea_dhcp_operator.Controller.Client.{
  found, not_found, get_failed, done, failed, ◌>>◌, wrap, Fetched, Run, OwnerApi,
}
use kea_dhcp_operator.Api.Kube.{secret_key_ref, EnvVar, ObjectMeta, LocalObjectReference}
use kea_dhcp_operator.Base.Int.{pos}
use kea_dhcp_operator.Json.{object, array, cons, text, Json, get}
use kea_dhcp_operator.Base.{
  String, [], ◌∷◌, none, some, true, ok, error, get_or, Option, Bool, List, ◌<>◌, if◌then◌else◌,
  ◌==◌, ℕ, Result,
}

-- `nestedField`
unfoldable pub nested_field : List String → Json → Option Json
unfolding get
nested_field [] val = some val
nested_field (f ∷ fs) (object m) = elim (get f m) [ none ↦ none | some val ↦ nested_field fs val ]
nested_field (f ∷ fs) val = none

abbrev text_of : Option Json → String
text_of (some (text s)) = s
text_of o = ""

-- The host of the first entry.
abbrev first_host : Option Json → String
first_host (some (array (cons (object m) rest))) = text_of (get "host" m)
first_host o = ""

-- `getRouteURL`, for the Route that is there: the host in the spec, or else that of the first ingress.
unfoldable pub route_host : Json → String
unfolding nested_field get
route_host route =
    let host = text_of (nested_field ("spec" ∷ "host" ∷ []) route) in
    if host == "" then first_host (nested_field ("status" ∷ "ingress" ∷ []) route) else host

abbrev url_of_host : String → String
url_of_host host = if host == "" then "" else "https://" <> host

abbrev pub route_url : Fetched Json → String
route_url (found route) = url_of_host (route_host route)
route_url r = ""

-- The credentials of the database.
abbrev database_env : String → LocalObjectReference → String → EnvVar
database_env name ref key = record {
  name = name;
  source = secret_key_ref (record { name = ref.name; key = key });
}

unfoldable pub stork_server_params : KeaStorkServer → StorkServerParams
unfolding pod_params
stork_server_params server = record {
  namespace = server.meta.namespace;
  cr_name = server.meta.name;
  image = server.spec.container.image;
  image_pull_policy = server.spec.container.image_pull_policy;
  replicas = server.spec.replicas;
  resources = server.spec.container.resources;
  port = get_or server.spec.port default_stork_server_port;
  enable_metrics = get_or server.spec.enable_metrics true;
  image_pull_secrets = server.spec.container.image_pull_secrets;
  service_account_name = service_account_name server.meta.name;
  db_host = db.host;
  db_port = get_or db.port (pos 5432);
  db_name = if db.name == "" then "stork" else db.name;
  db_ssl_mode = if db.ssl_mode == "" then "disable" else db.ssl_mode;
  node_selector = pod.node_selector;
  tolerations = pod.tolerations;
  affinity = pod.affinity;
  pod_annotations = pod.pod_annotations;
  secret_env_vars =
      database_env "STORK_DATABASE_USER_NAME" db.credentials_secret_ref "username"
      ∷ database_env "STORK_DATABASE_PASSWORD" db.credentials_secret_ref "password"
      ∷ [];
  admin_secret_name = stork_admin_secret_name server.meta.name;
  server_token_secret_name = stork_server_token_secret_name server.meta.name;
}
  where
    db : StorkServerDatabase
    db = server.spec.database

    pod : PodParams
    pod = pod_params server.spec.container.image none server.spec.placement none

-- The URL that the naming of Routes suggests.
abbrev guessed_url : ObjectMeta → String
guessed_url owner =
    "https://"
    <> service_name owner.name "stork-server"
    <> "-"
    <> owner.namespace
    <> ".apps.cluster.local"

-- Step 10, up to the call that stores the status.
unfoldable pub stork_server_status :
    String → Bool → String → ℕ → KeaStorkServer → KeaStorkServerStatus
stork_server_status now is_open_shift url ready server = record {
  component =
      component_status now st.config_hash st.config_map_ref server.meta.generation (pos ready)
        (replicas_or_one server.spec.replicas) st;
  url =
      if is_open_shift
      then (if url == "" then guessed_url server.meta else url)
      else server.status.url;
  admin_secret_name = stork_admin_secret_name server.meta.name;
  server_token_secret_name = stork_server_token_secret_name server.meta.name;
}
  where
    st : ComponentStatus
    st = server.status.component

abbrev pub secret_key : String → String → Key
secret_key namespace name = record { kind = secrets; namespace = namespace; name = name }

module _ {Objects Owners : Type 0} (client : Client Objects) (owner : ObjectMeta) where
  -- A Secret that is generated once: the text, what it is called in messages, its name and its content.
  abbrev generated :
      Result String → String → String → (String → DataObject) → Run (State Objects Owners)
  generated (ok chars) generating reconciling build =
      wrap reconciling (own client owner (secret (build chars)))
  generated (error e) generating reconciling build = λ w. (failed (generating <> ": " <> e), w)

  abbrev secret_if_missing :
      Fetched Resource → String → Run (State Objects Owners) → Run (State Objects Owners)
  secret_if_missing (found r) fetching make = skip
  secret_if_missing not_found fetching make = make
  secret_if_missing (get_failed e) fetching make = λ w. (failed (fetching <> ": " <> e), w)

  -- Step 5.
  unfoldable pub admin_secret_step : Result String → Run (State Objects Owners)
  admin_secret_step random =
      let name = stork_admin_secret_name owner.name in
      reading (λ w. client.get (secret_key owner.namespace name) w.objects)
        (λ r. secret_if_missing r "fetching admin Secret" (
          generated random "generating admin password" "reconciling admin Secret" (λ chars.
            build_stork_server_admin_secret owner.namespace name
              (common_labels owner.name "stork-server") (chars <> "!A"))))

  -- Step 6.
  unfoldable pub token_secret_step : Result String → Run (State Objects Owners)
  token_secret_step random =
      let name = stork_server_token_secret_name owner.name in
      reading (λ w. client.get (secret_key owner.namespace name) w.objects)
        (λ r. secret_if_missing r "fetching server token Secret" (
          generated random "generating server token" "reconciling server token Secret" (λ chars.
            build_stork_server_token_secret owner.namespace name
              (common_labels owner.name "stork-server") chars)))

  -- Step 9.
  unfoldable pub stork_route_step : Bool → Run (State Objects Owners)
  stork_route_step is_open_shift = when_run is_open_shift (
      passed_over (
        on_objects
          (reconcile_route client owner (build_stork_server_route owner.namespace owner.name))))

module _ {Objects Owners : Type 0} (client : Client Objects) (is_open_shift : Bool)
    (get_route : String → String → Objects → Fetched Json)
    (password_text token_text : Result String)
    (api : OwnerApi Owners KeaStorkServer KeaStorkServerStatus) (now : String) where
  -- Steps 7 to 10.
  unfoldable pub after_secrets : KeaStorkServer → Run (State Objects Owners)
  unfolding stork_route_step stork_server_params stork_server_status
  after_secrets server =
      let p = stork_server_params server in
      wrap "reconciling Deployment"
        (own client server.meta (deployment (build_stork_server_deployment p)))
      >> wrap "reconciling Service" (
          own client server.meta
            (service (build_stork_server_service server.meta.namespace server.meta.name p.port)))
      >> stork_route_step client server.meta is_open_shift
      >> reading
          (ready_replicas client server.meta deployments
            (deployment_name server.meta.name "stork-server"))
          (λ ready.
            reading
              (λ w. route_url (
                get_route server.meta.namespace (service_name server.meta.name "stork-server")
                  w.objects))
              (λ url. wrap "updating status" (
                update_status api server (stork_server_status now is_open_shift url ready server))))

  unfoldable pub reconcile_stork : KeaStorkServer → Run (State Objects Owners)
  unfolding admin_secret_step token_secret_step after_secrets
  reconcile_stork server =
      service_account_step client server.meta "stork-server"
      >> admin_secret_step client server.meta password_text
      >> token_secret_step client server.meta token_text
      >> after_secrets server

  abbrev pub stork_fetched : Fetched KeaStorkServer → Run (State Objects Owners)
  stork_fetched (found server) w = reconcile_stork server w
  stork_fetched not_found w = (done, w)
  stork_fetched (get_failed e) w = (failed e, w)

  unfoldable pub reconcile_stork_request : String → String → Run (State Objects Owners)
  unfolding reconcile_stork
  reconcile_stork_request namespace name w = stork_fetched (api.get namespace name w.owners) w
