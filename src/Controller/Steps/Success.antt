-- ===== src/Controller/Steps/Success.antt =====
-- Reconciliations in which no call of the client fails.
use kea_dhcp_operator.Resources.Services.{build_pod_monitor, build_stork_metrics_route}
use kea_dhcp_operator.Controller.Setup.{ensure_scc_role_binding}
use kea_dhcp_operator.Controller.Steps.{
  State, own, on_objects, update_status, skip, reading, passed_over, when_run, ObjectMeta,
  config_map_step, stork_monitoring_step, DeploymentParams, service_account_step, scc_step,
  deployment_step, control_service_step, service_step, StorkSidecarParams, ControlSocket,
  ServiceParams,
}
use kea_dhcp_operator.Controller.Objects.{
  reconcile_resource, set_reference, Client, Resource, apply_desired, pod_monitor, reconcile_route,
}
use kea_dhcp_operator.Controller.Client.{
  done, Run, ◌>>◌, wrap, OwnerApi, Succeeds, Succeeds->>, Succeeds-wrap, failed, Outcome,
}
use kea_dhcp_operator.Base.{
  String, true, false, none, some, refl, Bool, Option, ◌≡◌, ok, error, Result, ◌<>◌,
}

-- The calls that can end a reconciliation succeed.
pub record NeverFails {Objects : Type 0} (client : Client Objects) : Type 0 where
  pub create_or_update-done :
      (obj : Resource) (f : Resource → Resource) (s : Objects)
      → (client.create_or_update obj f s).0 ≡ done
  pub set_controller_reference-done :
      (owner : ObjectMeta) (obj : Resource) → client.set_controller_reference owner obj ≡ done

module _ {World : Type 0} where
  pub Succeeds-passed_over : (m : Run World) → Succeeds (passed_over m)
  unfolding passed_over
  Succeeds-passed_over m w = refl

  pub Succeeds-skip : Succeeds {World = World} skip
  unfolding skip
  Succeeds-skip w = refl

  pub Succeeds-when_run : (b : Bool) (m : Run World) → Succeeds m → Succeeds (when_run b m)
  unfolding when_run
  Succeeds-when_run true m h = h
  Succeeds-when_run false m h = Succeeds-skip

  pub Succeeds-reading :
      {A : Type 0} (f : World → A) (k : A → Run World)
      → ((a : A) → Succeeds (k a))
      → Succeeds (reading f k)
  unfolding reading
  Succeeds-reading f k h w = h (f w) w

module _ {Objects Owners : Type 0} (client : Client Objects) (law : NeverFails client)
    (owner : ObjectMeta) where
  pub Succeeds-own :
      (obj : Resource) → Succeeds {World = State Objects Owners} (own client owner obj)
  unfolding own on_objects reconcile_resource
  Succeeds-own obj w =
      Succeeds->> _ _
        (Succeeds-wrap _ (set_reference client owner obj)
          (λ s. law.set_controller_reference-done owner obj))
        (Succeeds-wrap _ (client.create_or_update obj (apply_desired obj))
          (λ s. law.create_or_update-done obj _ s))
        w.objects

  pub Succeeds-config_map_step :
      (component config_json : String)
      → Succeeds {World = State Objects Owners} (config_map_step client owner component config_json)
  unfolding config_map_step
  Succeeds-config_map_step component config_json = Succeeds-wrap _ _ (Succeeds-own _)

  pub Succeeds-service_account_step :
      (component : String)
      → Succeeds {World = State Objects Owners} (service_account_step client owner component)
  unfolding service_account_step
  Succeeds-service_account_step component = Succeeds-wrap _ _ (Succeeds-own _)

  pub Succeeds-scc_step :
      (is_open_shift : Bool)
      → Succeeds {World = State Objects Owners} (scc_step client owner is_open_shift)
  unfolding scc_step
  Succeeds-scc_step is_open_shift =
      let bind = on_objects (ensure_scc_role_binding client owner.namespace owner.name) in
      Succeeds-when_run _ (passed_over bind) (Succeeds-passed_over bind)

  pub Succeeds-deployment_step :
      (p : DeploymentParams)
      → Succeeds {World = State Objects Owners} (deployment_step client owner p)
  unfolding deployment_step
  Succeeds-deployment_step p = Succeeds-wrap _ _ (Succeeds-own _)

  pub Succeeds-service_step :
      (p : ServiceParams) → Succeeds {World = State Objects Owners} (service_step client owner p)
  unfolding service_step
  Succeeds-service_step p = Succeeds-wrap _ _ (Succeeds-own _)

  pub Succeeds-control_service_step :
      (component : String) (cs : Option ControlSocket)
      → Succeeds {World = State Objects Owners} (control_service_step client owner component cs)
  unfolding control_service_step
  Succeeds-control_service_step component none = Succeeds-skip
  Succeeds-control_service_step component (some cs) =
      Succeeds-when_run _ _ (Succeeds-service_step _)

  pub Succeeds-stork_monitoring_step :
      (is_open_shift : Bool) (component : String) (agent : Option StorkSidecarParams)
      → Succeeds {World = State Objects Owners}
          (stork_monitoring_step client owner is_open_shift component agent)
  unfolding stork_monitoring_step
  Succeeds-stork_monitoring_step is_open_shift component none = Succeeds-skip
  Succeeds-stork_monitoring_step is_open_shift component (some agent) =
      let r = build_stork_metrics_route owner.namespace owner.name component in
      let expose = on_objects (reconcile_route client owner r) in
      let watch =
        own client owner (pod_monitor (build_pod_monitor owner.namespace owner.name component)) in
      Succeeds->> _ _ (Succeeds-passed_over watch) (
        Succeeds->> _ _ (Succeeds-wrap _ _ (Succeeds-own _))
          (Succeeds-when_run _ (passed_over expose) (Succeeds-passed_over expose)))

  -- The first steps of a reconciliation with one ConfigMap and one Deployment.
  pub Succeeds-standard :
      (component config_json : String) (is_open_shift : Bool) {A : Type 0}
      (f : State Objects Owners → A) (p : A → DeploymentParams)
      (after : A → Run (State Objects Owners))
      → ((a : A) → Succeeds (after a))
      → Succeeds (
          config_map_step client owner component config_json
          >> service_account_step client owner component
          >> scc_step client owner is_open_shift
          >> reading f (λ a. deployment_step client owner (p a) >> after a))
  Succeeds-standard component config_json is_open_shift f p after h =
      Succeeds->> _ _ (Succeeds-config_map_step component config_json) (
        Succeeds->> _ _ (Succeeds-service_account_step component) (
          Succeeds->> _ _ (Succeeds-scc_step is_open_shift)
            (Succeeds-reading f _ (λ a. Succeeds->> _ _ (Succeeds-deployment_step (p a)) (h a)))))

module _ {Objects Owners Owner Status : Type 0} (api : OwnerApi Owners Owner Status)
    (owner : Owner) where
  pub Succeeds-update_status :
      (st : Status)
      → ((s : Owners) → (api.update_status owner st s).0 ≡ done)
      → Succeeds {World = State Objects Owners}
          (wrap "updating status" (update_status api owner st))
  unfolding update_status
  Succeeds-update_status st h = Succeeds-wrap _ _ (λ w. h w.owners)

-- How a reconciliation ends whose calls all succeed: it depends on the configuration alone.
abbrev pub rendered_outcome : Result String → Outcome
rendered_outcome (ok config_json) = done
rendered_outcome (error e) = failed ("rendering config: " <> e)
