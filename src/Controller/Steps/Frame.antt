-- ===== src/Controller/Steps/Frame.antt =====
-- What a step leaves alone: the objects of other keys, and the resources that the reconciler is for.
use kea_dhcp_operator.Controller.Setup.{
  or_existing, scc_role_binding, binding_if_missing, ensure_scc_role_binding,
}
use kea_dhcp_operator.Api.Workloads.{Route}
use kea_dhcp_operator.Controller.Client.{
  Run, wrap, ◌>>◌, >>-cases, wrap-state, found, not_found, get_failed, Fetched,
}
use kea_dhcp_operator.Controller.Steps.{
  on_objects, when_run, passed_over, skip, State, own, ensure_scc_role_binding,
  control_service_step, scc_step, service_account_step, service_step, stork_monitoring_step,
  ServiceParams, ControlSocket, StorkSidecarParams, build_service_account, build_service,
  build_pod_monitor, service_params, build_stork_metrics_service, common_labels, pos,
  stork_service_params, build_stork_metrics_route,
}
use kea_dhcp_operator.Api.Kube.{ObjectMeta}
use kea_dhcp_operator.Controller.Objects.{
  Client, Resource, TakesEffect, Key, reconcile_resource, key_of, route, role_binding, service,
  service_account, pod_monitor, already_exists, create_failed, created, Created, reconcile_route,
  apply_desired, config_map, secret, deployment, stateful_set,
}
use kea_dhcp_operator.Base.{
  ◌≡◌, ◌∙◌, ◌≢◌, inl, inr, true, false, refl, String, Bool, some, none, Option, ◌&&◌, ◌==◌, get_or,
}

module _ {Objects : Type 0} (client : Client Objects) {admitted : Resource → Resource}
    (law : TakesEffect client admitted) (k : Key) where
  abbrev pub Avoids : Run Objects → Type 0
  Avoids m = (s : Objects) → client.get k (m s).1 ≡ client.get k s

  Avoids->> : (m n : Run Objects) → Avoids m → Avoids n → Avoids (m >> n)
  Avoids->> m n hm hn s = elim (>>-cases m n s) [
    | inl next ↦ rw next (hn (m s).1 ∙ hm s)
    | inr ended ↦ rw ended (hm s)
  ]

  Avoids-wrap : (prefix : String) (m : Run Objects) → Avoids m → Avoids (wrap prefix m)
  Avoids-wrap prefix m h s = rw (wrap-state prefix m s) (h s)

  pub Avoids-reconcile_resource :
      (owner : ObjectMeta) (obj : Resource)
      → key_of obj ≢ k
      → Avoids (reconcile_resource client owner obj)
  unfolding reconcile_resource
  Avoids-reconcile_resource owner obj other =
      Avoids->> _ _ (Avoids-wrap _ _ (λ s. refl))
        (Avoids-wrap _ _ (λ s. law.get-create_or_update_other obj (apply_desired obj) k s other))

  pub Avoids-reconcile_route :
      (owner : ObjectMeta) (r : Route)
      → key_of (route r) ≢ k
      → Avoids (reconcile_route client owner r)
  unfolding reconcile_route
  Avoids-reconcile_route owner r other = Avoids->> _ _ (Avoids-wrap _ _ (λ s. refl)) (
      Avoids-wrap _ _
        (λ s. law.get-create_or_update_other (route r) (apply_desired (route r)) k s other))

  or_existing-state : (what : String) (r : Created × Objects) → (or_existing what r).1 ≡ r.1
  or_existing-state what (created, s) = refl
  or_existing-state what (already_exists e, s) = refl
  or_existing-state what (create_failed e, s) = refl

  binding_if_missing-other :
      (namespace cr_name : String) (f : Fetched Resource)
      → key_of (role_binding (scc_role_binding namespace cr_name)) ≢ k
      → Avoids (binding_if_missing client namespace cr_name f)
  binding_if_missing-other namespace cr_name (found r) other s = refl
  binding_if_missing-other namespace cr_name not_found other s =
      rw (or_existing-state _ (client.create (role_binding (scc_role_binding namespace cr_name)) s))
        (law.get-create_other _ k s other)
  binding_if_missing-other namespace cr_name (get_failed e) other s =
      rw (or_existing-state _ (client.create (role_binding (scc_role_binding namespace cr_name)) s))
        (law.get-create_other _ k s other)

  Avoids-ensure_scc_role_binding :
      (namespace cr_name : String)
      → key_of (role_binding (scc_role_binding namespace cr_name)) ≢ k
      → Avoids (ensure_scc_role_binding client namespace cr_name)
  unfolding ensure_scc_role_binding
  Avoids-ensure_scc_role_binding namespace cr_name other s =
      binding_if_missing-other namespace cr_name _ other s

-- Neither a ConfigMap, nor a Secret, nor a workload.
abbrev pub IsBeside : Resource → Type 0
IsBeside (config_map x) = ⊥
IsBeside (secret x) = ⊥
IsBeside (deployment x) = ⊥
IsBeside (stateful_set x) = ⊥
IsBeside (service x) = Unit
IsBeside (service_account x) = Unit
IsBeside (pod_monitor x) = Unit
IsBeside (role_binding x) = Unit
IsBeside (route x) = Unit

module _ {Objects : Type 0} (Owners : Type 0) (client : Client Objects)
    {admitted : Resource → Resource} (law : TakesEffect client admitted) (k : Key) where
  -- A step that leaves the object of `k` alone, and the resources.
  abbrev pub Spares : Run (State Objects Owners) → Type 0
  Spares m =
      (w : State Objects Owners)
      → (client.get k (m w).1.objects ≡ client.get k w.objects) × ((m w).1.owners ≡ w.owners)

  pub Spares->> : (m n : Run (State Objects Owners)) → Spares m → Spares n → Spares (m >> n)
  Spares->> m n hm hn w = elim (>>-cases m n w) [
    | inl next ↦ rw next ((hn (m w).1).0 ∙ (hm w).0, (hn (m w).1).1 ∙ (hm w).1)
    | inr ended ↦ rw ended (hm w)
  ]

  pub Spares-wrap :
      (prefix : String) (m : Run (State Objects Owners)) → Spares m → Spares (wrap prefix m)
  Spares-wrap prefix m h w = rw (wrap-state prefix m w) (h w)

  pub Spares-passed_over : (m : Run (State Objects Owners)) → Spares m → Spares (passed_over m)
  unfolding passed_over
  Spares-passed_over m h w = h w

  pub Spares-skip : Spares skip
  unfolding skip
  Spares-skip w = (refl, refl)

  pub Spares-when_run :
      (b : Bool) (m : Run (State Objects Owners)) → Spares m → Spares (when_run b m)
  unfolding when_run
  Spares-when_run true m h = h
  Spares-when_run false m h = Spares-skip

  pub Spares-on_objects :
      (m : Run Objects)
      → ((s : Objects) → client.get k (m s).1 ≡ client.get k s)
      → Spares (on_objects m)
  unfolding on_objects
  Spares-on_objects m h w = (h w.objects, refl)

  module _ (owner : ObjectMeta) where
    pub Spares-own : (obj : Resource) → key_of obj ≢ k → Spares (own client owner obj)
    unfolding own
    Spares-own obj other =
        Spares-on_objects (reconcile_resource client owner obj)
          (Avoids-reconcile_resource client law k owner obj other)

    -- The steps beside the workload: they write objects of other kinds than ConfigMaps and workloads.
    module _ (beside : (obj : Resource) → IsBeside obj → key_of obj ≢ k) where
      abbrev spares_own : (obj : Resource) → IsBeside obj → Spares (own client owner obj)
      spares_own obj kind = Spares-own obj (beside obj kind)

      pub Spares-service_account_step :
          (component : String) → Spares (service_account_step client owner component)
      unfolding service_account_step
      Spares-service_account_step component =
          let account =
            build_service_account owner.namespace owner.name (common_labels owner.name component) in
          Spares-wrap "reconciling ServiceAccount" (own client owner (service_account account))
            (spares_own (service_account account) tt)

      pub Spares-scc_step : (is_open_shift : Bool) → Spares (scc_step client owner is_open_shift)
      unfolding scc_step
      Spares-scc_step is_open_shift =
          let bind = ensure_scc_role_binding client owner.namespace owner.name in
          Spares-when_run (is_open_shift && owner.namespace == "kea-system")
            (passed_over (on_objects bind))
            (Spares-passed_over (on_objects bind) (
              Spares-on_objects bind (
                Avoids-ensure_scc_role_binding client law k owner.namespace owner.name
                  (beside (role_binding (scc_role_binding owner.namespace owner.name)) tt))))

      pub Spares-service_step : (p : ServiceParams) → Spares (service_step client owner p)
      unfolding service_step
      Spares-service_step p =
          Spares-wrap "reconciling Service" (own client owner (service (build_service p)))
            (spares_own (service (build_service p)) tt)

      pub Spares-control_service_step :
          (component : String) (cs : Option ControlSocket)
          → Spares (control_service_step client owner component cs)
      unfolding control_service_step
      Spares-control_service_step component none = Spares-skip
      Spares-control_service_step component (some cs) =
          let p = service_params owner component (get_or cs.socket_port (pos 8000)) "TCP" in
          Spares-when_run (cs.socket_type == "http") (service_step client owner p)
            (Spares-service_step p)

      pub Spares-stork_monitoring_step :
          (is_open_shift : Bool) (component : String) (agent : Option StorkSidecarParams)
          → Spares (stork_monitoring_step client owner is_open_shift component agent)
      unfolding stork_monitoring_step
      Spares-stork_monitoring_step is_open_shift component none = Spares-skip
      Spares-stork_monitoring_step is_open_shift component (some agent) =
          let monitor = pod_monitor (build_pod_monitor owner.namespace owner.name component) in
          let metrics =
            service (build_stork_metrics_service (stork_service_params owner component agent)) in
          let r = build_stork_metrics_route owner.namespace owner.name component in
          let expose = reconcile_route client owner r in
          let last = Spares-when_run is_open_shift (passed_over (on_objects expose)) (
            Spares-passed_over (on_objects expose) (
              Spares-on_objects expose
                (Avoids-reconcile_route client law k owner r (beside (route r) tt)))) in
          Spares->> (passed_over (own client owner monitor))
            (wrap "reconciling Stork metrics Service" (own client owner metrics)
              >> when_run is_open_shift (passed_over (on_objects expose)))
            (Spares-passed_over (own client owner monitor) (spares_own monitor tt))
            (Spares->> (wrap "reconciling Stork metrics Service" (own client owner metrics))
              (when_run is_open_shift (passed_over (on_objects expose)))
              (Spares-wrap "reconciling Stork metrics Service" (own client owner metrics)
                (spares_own metrics tt))
              last)
