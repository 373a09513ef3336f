-- ===== src/Controller/Steps.antt =====
-- The steps that the reconcilers of the components share: steps 4 to 9 of `Reconcile` in
-- internal/controller/keadhcp4server_controller.go, keadhcp6server_controller.go,
-- keacontrolagent_controller.go and keadhcpddns_controller.go. Logs and events are left out.
pub mod Frame
pub mod Effect
pub mod Addresses
pub mod InPlace
pub mod Standard
pub mod Closing
pub mod Errors
pub mod Success
use kea_dhcp_operator.Resources.Labels.{common_labels}
use kea_dhcp_operator.Controller.Conditions.{set_condition}
use kea_dhcp_operator.Resources.Deployment.{DeploymentParams, build_deployment}
use kea_dhcp_operator.Resources.Services.{
  build_config_map, ServiceParams, build_service_account, build_service, StorkMetricsServiceParams,
  build_pod_monitor, build_stork_metrics_service, build_stork_metrics_route,
}
use kea_dhcp_operator.Controller.Setup.{ensure_scc_role_binding}
use kea_dhcp_operator.Resources.Stork.{StorkSidecarParams}
use kea_dhcp_operator.Base.{
  ℕ, String, Bool, Option, none, some, ◌==◌, ◌&&◌, if◌then◌else◌, ◌<>◌, get_or,
}
use kea_dhcp_operator.Base.Int.{ℤ, pos}
use kea_dhcp_operator.Api.Kube.{ObjectMeta}
use kea_dhcp_operator.Api.Common.{ComponentStatus, ControlSocket}
use kea_dhcp_operator.Controller.Client.{
  Outcome, done, failed, Fetched, found, not_found, get_failed, Run, wrap, ◌>>◌, OwnerApi,
}
use kea_dhcp_operator.Controller.Objects.{
  Client, Resource, Kind, config_map, deployment, service, service_account, pod_monitor,
  reconcile_resource, reconcile_route,
}

-- The objects that a reconciler owns, and the resources that it is for.
pub record State (Objects Owners : Type 0) : Type 0 where
  pub objects : Objects
  pub owners : Owners

-- The status with a configuration that cannot be rendered.
unfoldable pub render_error : String → String → ComponentStatus → ComponentStatus
render_error now e st = record st {
  conditions = set_condition now "ConfigurationValid" "False" "RenderError" e st.conditions;
  phase = "Error";
}

unfoldable pub config_rendered : String → ComponentStatus → ComponentStatus
config_rendered now st = record st {
  conditions =
      set_condition now "ConfigurationValid" "True" "ConfigRendered"
        "Configuration rendered successfully" st.conditions;
}

-- `replicas`, 1 if the spec does not say.
abbrev pub replicas_or_one : Option ℤ → ℤ
replicas_or_one o = get_or o (pos 1)

abbrev ready_or_zero : Fetched ℕ → ℕ
ready_or_zero (found n) = n
ready_or_zero not_found = 0
ready_or_zero (get_failed e) = 0

abbrev pub service_params : ObjectMeta → String → ℤ → String → ServiceParams
service_params owner component port protocol = record {
  namespace = owner.namespace;
  cr_name = owner.name;
  component = component;
  port = port;
  protocol = protocol;
}

abbrev pub stork_service_params :
    ObjectMeta → String → StorkSidecarParams → StorkMetricsServiceParams
stork_service_params owner component agent = record {
  namespace = owner.namespace;
  cr_name = owner.name;
  component = component;
  agent_port = agent.port;
  prometheus_port = agent.prometheus_port;
}

module _ {World : Type 0} where
  abbrev succeeded : Outcome × World → Outcome × World
  succeeded (o, w) = (done, w)

  -- An error is logged, and the reconciliation goes on.
  unfoldable pub passed_over : Run World → Run World
  passed_over m w = succeeded (m w)

  unfoldable pub skip : Run World
  skip w = (done, w)

  unfoldable pub when_run : Bool → Run World → Run World
  unfolding skip
  when_run b m = if b then m else skip

  -- A step whose text depends on the state that it starts from.
  unfoldable pub reading : {A : Type 0} → (World → A) → (A → Run World) → Run World
  reading f k w = k (f w) w

module _ {Objects Owners : Type 0} where
  abbrev put_objects : Outcome × Objects → (State Objects Owners) → Outcome × (State Objects Owners)
  put_objects (o, s) w = (o, record w { objects = s })

  abbrev put_owners : Outcome × Owners → (State Objects Owners) → Outcome × (State Objects Owners)
  put_owners (o, s) w = (o, record w { owners = s })

  unfoldable pub on_objects : Run Objects → Run (State Objects Owners)
  on_objects m w = put_objects (m w.objects) w

  unfoldable pub update_status :
      {Owner Status : Type 0}
      → OwnerApi Owners Owner Status
      → Owner
      → Status
      → Run (State Objects Owners)
  update_status api server status w = put_owners (api.update_status server status w.owners) w

  module _ (client : Client Objects) (owner : ObjectMeta) where
    unfoldable pub own : Resource → Run (State Objects Owners)
    unfolding on_objects
    own obj = on_objects (reconcile_resource client owner obj)

    unfoldable pub config_map_step : String → String → Run (State Objects Owners)
    unfolding own
    config_map_step component config_json = wrap "reconciling ConfigMap" (
        own (
          config_map (
            build_config_map owner.namespace owner.name component config_json
              (common_labels owner.name component))))

    unfoldable pub service_account_step : String → Run (State Objects Owners)
    unfolding own
    service_account_step component = wrap "reconciling ServiceAccount" (
        own (
          service_account (
            build_service_account owner.namespace owner.name (common_labels owner.name component))))

    -- The constraints are bound in the operator's own namespace only.
    unfoldable pub scc_step : Bool → Run (State Objects Owners)
    unfolding when_run passed_over on_objects
    scc_step is_open_shift =
        when_run (is_open_shift && owner.namespace == "kea-system")
          (passed_over (on_objects (ensure_scc_role_binding client owner.namespace owner.name)))

    unfoldable pub deployment_step : DeploymentParams → Run (State Objects Owners)
    unfolding own
    deployment_step p = wrap "reconciling Deployment" (own (deployment (build_deployment p)))

    unfoldable pub service_step : ServiceParams → Run (State Objects Owners)
    unfolding own
    service_step p = wrap "reconciling Service" (own (service (build_service p)))

    -- `reconcileDhcp4ControlService` and `reconcileDhcp6ControlService`
    unfoldable pub control_service_step : String → Option ControlSocket → Run (State Objects Owners)
    unfolding skip when_run service_step
    control_service_step component none = skip
    control_service_step component (some cs) =
        when_run (cs.socket_type == "http")
          (service_step (service_params owner component (get_or cs.socket_port (pos 8000)) "TCP"))

    -- `reconcileDhcp4StorkMonitoring` and `reconcileDhcp6StorkMonitoring`
    unfoldable pub stork_monitoring_step :
        Bool → String → Option StorkSidecarParams → Run (State Objects Owners)
    unfolding skip passed_over own when_run on_objects
    stork_monitoring_step is_open_shift component none = skip
    stork_monitoring_step is_open_shift component (some agent) =
        passed_over (own (pod_monitor (build_pod_monitor owner.namespace owner.name component)))
        >> wrap "reconciling Stork metrics Service" (
            own
              (service (build_stork_metrics_service (stork_service_params owner component agent))))
        >> when_run is_open_shift (
            passed_over (
              on_objects (
                reconcile_route client owner
                  (build_stork_metrics_route owner.namespace owner.name component))))

    -- The ready replicas of a workload, 0 if it cannot be fetched.
    unfoldable pub ready_replicas : Kind → String → (State Objects Owners) → ℕ
    ready_replicas kind name w = ready_or_zero (
        client.ready_replicas (record { kind = kind; namespace = owner.namespace; name = name })
          w.objects)

  -- The branch of a configuration that cannot be rendered: the status says so, if it can be stored.
  unfoldable pub render_failed :
      {Owner Status : Type 0}
      → OwnerApi Owners Owner Status
      → Owner
      → Status
      → String
      → Run (State Objects Owners)
  unfolding passed_over update_status
  render_failed api server status e =
      passed_over (update_status api server status)
      >> (λ w. (failed ("rendering config: " <> e), w))
