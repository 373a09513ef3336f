-- ===== src/Controller/Ddns/Deployed.antt =====
-- What a reconciliation of a DHCP-DDNS server leaves behind.
use kea_dhcp_operator.Controller.Steps.InPlace.{RunsOn, RunsOn-build_deployment}
use kea_dhcp_operator.Controller.Steps.Closing.{
  get-store, stored-store, counted, ready_replicas_lem, ready_replicas-same,
}
use kea_dhcp_operator.Resources.Deployment.{build_deployment}
use kea_dhcp_operator.Controller.Steps.Standard.{
  built_config_map, reconciled, standard-leaves, beside_apart,
}
use kea_dhcp_operator.Controller.Steps.Frame.{IsBeside, Spares, Spares-skip, Spares-service_step}
use kea_dhcp_operator.Controller.Ddns.{
  reconcile_rendered_ddns, ddns_service_step, reconcile_ddns_request, ℤ, deployment_name,
  after_ddns_deployment, ddns_config, reading, ddns_deployment_params, ddns_service_at, ddns_status,
  ddns_fetched, service_params, ddns_rendered,
}
use kea_dhcp_operator.Api.Ddns.{KeaDhcpDdns, KeaDhcpDdnsStatus}
use kea_dhcp_operator.Controller.Environment.{Environment}
use kea_dhcp_operator.Base.{◌≡◌, ◌∙◌, sym, ap, String, ℕ, ok, none, some, ◌≢◌, Option}
use kea_dhcp_operator.Controller.Client.{done, found, OwnerApi}
use kea_dhcp_operator.Controller.Objects.{
  deployment, Key, config_maps, deployments, Resource, TakesEffect, key_of,
}
use kea_dhcp_operator.Controller.Steps.{ready_replicas, State, reading}

-- The key of the Deployment.
abbrev pub ddns_key : KeaDhcpDdns → Key
ddns_key ddns = record {
  kind = deployments;
  namespace = ddns.meta.namespace;
  name = deployment_name ddns.meta.name "ddns";
}

module _ {Objects Owners : Type 0} (env : Environment Objects)
    (api : OwnerApi Owners KeaDhcpDdns KeaDhcpDdnsStatus) (now : String)
    {admitted : Resource → Resource} (law : TakesEffect env.client admitted) where
  abbrev ddns_ready : KeaDhcpDdns → State Objects Owners → ℕ
  ddns_ready ddns =
      ready_replicas env.client ddns.meta deployments (deployment_name ddns.meta.name "ddns")

  service_at-spares :
      (ddns : KeaDhcpDdns) (port : Option ℤ) (k : Key)
      → ((obj : Resource) → IsBeside obj → key_of obj ≢ k)
      → Spares Owners env.client law k (ddns_service_at env ddns port)
  service_at-spares ddns none k beside = Spares-skip Owners env.client law k
  service_at-spares ddns (some port) k beside =
      Spares-service_step Owners env.client law k ddns.meta beside
        (service_params ddns.meta "ddns" port "UDP")

  ddns_service-spares :
      (ddns : KeaDhcpDdns) (k : Key)
      → ((obj : Resource) → IsBeside obj → key_of obj ≢ k)
      → Spares Owners env.client law k (ddns_service_step env ddns)
  unfolding ddns_service_step
  ddns_service-spares ddns k beside = service_at-spares ddns ddns.spec.port k beside

  deployed :
      (ddns : KeaDhcpDdns) (config_json : String) (w : State Objects Owners)
      → (reconcile_rendered_ddns env api now ddns config_json w).0 ≡ done
      → let hash = env.compute_hash config_json in
        let cm = built_config_map ddns.meta "ddns" config_json in
        let built = deployment (build_deployment (ddns_deployment_params ddns hash)) in
        let w' = (reconcile_rendered_ddns env api now ddns config_json w).1 in
        (env.client.get (key_of cm) w'.objects
          ≡ found (reconciled env.client admitted cm w.objects))
        × (env.client.get (key_of built) w'.objects
            ≡ found (reconciled env.client admitted built w.objects))
        × (api.update_status ddns
              (ddns_status now hash
                (counted (env.client.ready_replicas (ddns_key ddns) w'.objects))
                ddns)
              w.owners
            ≡ (done, w'.owners))
  unfolding reconcile_rendered_ddns after_ddns_deployment reading
  deployed ddns config_json w h =
      let hash = env.compute_hash config_json in
      let m = ddns_service_step env ddns in
      let st = λ (ready : ℕ). ddns_status now hash ready ddns in
      standard-leaves env.client law ddns.meta "ddns" config_json env.is_open_shift {A = Unit}
        (λ w'. tt) (λ a. ddns_deployment_params ddns hash)
        (λ a. after_ddns_deployment env api now ddns hash) api ddns st
        (λ w1 w'. counted (env.client.ready_replicas (ddns_key ddns) w'.objects))
        (λ k beside a w' done'.
          get-store api ddns (ddns_ready ddns) st env.client law k m
            (ddns_service-spares ddns k beside) w' done')
        (λ a w' done'.
          ap (λ ready. api.update_status ddns (st ready) w'.owners)
            (sym (
              ready_replicas_lem env.client ddns.meta deployments
                (deployment_name ddns.meta.name "ddns")
                (after_ddns_deployment env api now ddns hash w').1))
          ∙ stored-store api ddns (ddns_ready ddns) st env.client law
              (record { kind = config_maps; namespace = ""; name = "" }) m
              (ddns_service-spares ddns _ (λ obj beside. (beside_apart obj beside _ _).0))
              (ready_replicas-same env.client ddns.meta deployments
                (deployment_name ddns.meta.name "ddns"))
              w' done')
        w h

  -- With a client whose calls without an error take effect, as the API server admits their objects:
  -- a reconciliation of a DHCP-DDNS server that is there, whose configuration can be printed, and
  -- that ends without an error, has put that configuration into its ConfigMap as the one file; has
  -- put the Deployment in place of what was there, whose pods have that ConfigMap as their first
  -- volume and the hash of the configuration among their annotations; and has stored the status with
  -- that hash and the number of ready replicas that the Deployment has in the end, 0 if they cannot
  -- be read.
  pub deployed-reconcile_ddns_request :
      (namespace name config_json : String) (ddns : KeaDhcpDdns) (w : State Objects Owners)
      → api.get namespace name w.owners ≡ found ddns
      → ddns_config env ddns ≡ ok config_json
      → (reconcile_ddns_request env api now namespace name w).0 ≡ done
      → let hash = env.compute_hash config_json in
        let cm = built_config_map ddns.meta "ddns" config_json in
        let built = deployment (build_deployment (ddns_deployment_params ddns hash)) in
        let w' = (reconcile_ddns_request env api now namespace name w).1 in
        (env.client.get (key_of cm) w'.objects
          ≡ found (reconciled env.client admitted cm w.objects))
        × (env.client.get (key_of built) w'.objects
            ≡ found (reconciled env.client admitted built w.objects))
        × RunsOn (build_deployment (ddns_deployment_params ddns hash)) (key_of cm).name hash
        × (api.update_status ddns
              (ddns_status now hash
                (counted (env.client.ready_replicas (ddns_key ddns) w'.objects))
                ddns)
              w.owners
            ≡ (done, w'.owners))
  unfolding ddns_deployment_params reconcile_ddns_request
  deployed-reconcile_ddns_request namespace name config_json ddns w there printed h =
      let same =
        ap (λ x. ddns_fetched env api now x w) there
        ∙ ap (λ x. ddns_rendered env api now ddns x w) printed in
      let left = deployed ddns config_json w (sym (ap (λ r. r.0) same) ∙ h) in
      let hash = env.compute_hash config_json in
      rw same (left.0, left.1, RunsOn-build_deployment (ddns_deployment_params ddns hash), left.2)
