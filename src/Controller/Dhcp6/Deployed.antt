-- ===== src/Controller/Dhcp6/Deployed.antt =====
-- What a reconciliation of a DHCPv6 server leaves behind.
use kea_dhcp_operator.Controller.Steps.InPlace.{RunsOn, RunsOn-build_deployment}
use kea_dhcp_operator.Controller.Steps.Errors.{is_ready_status-render_error, render_failed_lem}
use kea_dhcp_operator.Controller.Status.{is_ready_status}
use kea_dhcp_operator.Controller.Conditions.{find_condition, merged}
use kea_dhcp_operator.Controller.Steps.Frame.{
  Spares-control_service_step, Spares-stork_monitoring_step,
}
use kea_dhcp_operator.Controller.Steps.Closing.{
  get-store_two, stored-store_two, counted, ready_replicas_lem, ready_replicas-same,
}
use kea_dhcp_operator.Controller.Steps.{ready_replicas, render_error}
use kea_dhcp_operator.Resources.Deployment.{build_deployment}
use kea_dhcp_operator.Controller.Steps.Standard.{
  prepared, built_config_map, reconciled, standard-leaves, beside_apart,
}
use kea_dhcp_operator.Base.{◌≡◌, String, ℕ, Option, ok, ap, ◌∙◌, sym, error, false, some, ◌<>◌}
use kea_dhcp_operator.Controller.Client.{done, found, OwnerApi, failed}
use kea_dhcp_operator.Controller.Objects.{
  deployment, Resource, TakesEffect, key_of, config_maps, deployments, Key,
}
use kea_dhcp_operator.Controller.Dhcp6.{
  Environment, KeaDhcp6Server, KeaDhcp6ServerStatus, reconcile_rendered_dhcp6,
  after_dhcp6_deployment, State, dhcp6_stork_agent, dhcp6_deployment_params, dhcp6_status,
  deployment_name, control_service_step, stork_monitoring_step, reconcile_dhcp6_request,
  reconcile_dhcp6_server, StorkSidecarParams, dhcp6_config, with_dhcp6_peer_urls, dhcp6_fetched,
  dhcp6_rendered,
}

module _ {Objects Owners : Type 0} (env : Environment Objects)
    (api : OwnerApi Owners KeaDhcp6Server KeaDhcp6ServerStatus) (now : String) where
  -- A reconciliation of a DHCPv6 server that is there, whose configuration cannot be printed ends with that error and
  -- touches no object; it has tried to store a status by which the umbrella controller reads the server
  -- as not ready, and whose condition on the configuration has the error as its message.
  pub failed-reconcile_dhcp6_request :
      (namespace name e : String) (server : KeaDhcp6Server) (w : State Objects Owners)
      → api.get namespace name w.owners ≡ found server
      → dhcp6_config env (with_dhcp6_peer_urls server) ≡ error e
      → let filled = with_dhcp6_peer_urls server in
        let st = render_error now e filled.status.component in
        (reconcile_dhcp6_request env api now namespace name w ≡ (
          failed ("rendering config: " <> e),
          record w {
            owners =
                (api.update_status filled (record filled.status { component = st }) w.owners).1;
          },
        ))
        × (is_ready_status st ≡ false)
        × (find_condition "ConfigurationValid" st.conditions
            ≡ some (
                merged now "ConfigurationValid" "False" "RenderError" e
                  (find_condition "ConfigurationValid" filled.status.component.conditions)))
  unfolding reconcile_dhcp6_request reconcile_dhcp6_server
  failed-reconcile_dhcp6_request namespace name e server w there unprinted =
      let filled = with_dhcp6_peer_urls server in
      (
        ap (λ x. dhcp6_fetched env api now x w) there
            ∙ ap (λ x. dhcp6_rendered env api now filled x w) unprinted
            ∙ render_failed_lem api filled _ e w,
        (is_ready_status-render_error now e filled.status.component).0,
        (is_ready_status-render_error now e filled.status.component).1,
      )

-- The key of the Deployment.
abbrev pub dhcp6_key : KeaDhcp6Server → Key
dhcp6_key server = record {
  kind = deployments;
  namespace = server.meta.namespace;
  name = deployment_name server.meta.name "dhcp6";
}

module _ {Objects Owners : Type 0} (env : Environment Objects)
    (api : OwnerApi Owners KeaDhcp6Server KeaDhcp6ServerStatus) (now : String)
    {admitted : Resource → Resource} (law : TakesEffect env.client admitted) where
  abbrev dhcp6_ready : KeaDhcp6Server → State Objects Owners → ℕ
  dhcp6_ready server =
      ready_replicas env.client server.meta deployments (deployment_name server.meta.name "dhcp6")

  deployed :
      (server : KeaDhcp6Server) (config_json : String) (w : State Objects Owners)
      → (reconcile_rendered_dhcp6 env api now server config_json w).0 ≡ done
      → let hash = env.compute_hash config_json in
        let agent =
          dhcp6_stork_agent env server
            (prepared env.client server.meta "dhcp6" config_json env.is_open_shift w) in
        let cm = built_config_map server.meta "dhcp6" config_json in
        let built = deployment (build_deployment (dhcp6_deployment_params server hash agent)) in
        let w' = (reconcile_rendered_dhcp6 env api now server config_json w).1 in
        (env.client.get (key_of cm) w'.objects
          ≡ found (reconciled env.client admitted cm w.objects))
        × (env.client.get (key_of built) w'.objects
            ≡ found (reconciled env.client admitted built w.objects))
        × (api.update_status server
              (dhcp6_status now hash
                (counted (env.client.ready_replicas (dhcp6_key server) w'.objects))
                server)
              w.owners
            ≡ (done, w'.owners))
  unfolding reconcile_rendered_dhcp6 after_dhcp6_deployment
  deployed server config_json w h =
      let hash = env.compute_hash config_json in
      let m = control_service_step env.client server.meta "dhcp6" server.spec.control_socket in
      let n = λ (a : Option StorkSidecarParams).
        stork_monitoring_step env.client server.meta env.is_open_shift "dhcp6" a in
      standard-leaves env.client law server.meta "dhcp6" config_json env.is_open_shift
        (dhcp6_stork_agent env server) (λ a. dhcp6_deployment_params server hash a)
        (after_dhcp6_deployment env api now server hash) api server
        (λ ready. dhcp6_status now hash ready server)
        (λ w1 w'. counted (env.client.ready_replicas (dhcp6_key server) w'.objects))
        (λ k beside a w' done'.
          get-store_two api server (dhcp6_ready server)
            (λ ready. dhcp6_status now hash ready server) env.client law k m (n a)
            (Spares-control_service_step Owners env.client law k server.meta beside "dhcp6"
              server.spec.control_socket)
            (Spares-stork_monitoring_step Owners env.client law k server.meta beside
              env.is_open_shift "dhcp6" a)
            w' done')
        (λ a w' done'.
          ap (λ ready. api.update_status server (dhcp6_status now hash ready server) w'.owners)
            (sym (
              ready_replicas_lem env.client server.meta deployments
                (deployment_name server.meta.name "dhcp6")
                (after_dhcp6_deployment env api now server hash a w').1))
          ∙ stored-store_two api server (dhcp6_ready server)
              (λ ready. dhcp6_status now hash ready server) env.client law
              (record { kind = config_maps; namespace = ""; name = "" }) m (n a)
              (Spares-control_service_step Owners env.client law _ server.meta
                (λ obj kind. (beside_apart obj kind _ _).0) "dhcp6" server.spec.control_socket)
              (Spares-stork_monitoring_step Owners env.client law _ server.meta
                (λ obj kind. (beside_apart obj kind _ _).0) env.is_open_shift "dhcp6" a)
              (ready_replicas-same env.client server.meta deployments
                (deployment_name server.meta.name "dhcp6"))
              w' done')
        w h

  -- With a client whose calls without an error take effect, as the API server admits their objects:
  -- a reconciliation of a DHCPv6 server that is there, whose configuration can be printed, and that
  -- ends without an error, has put that configuration into its ConfigMap as the one file; has put
  -- the Deployment in place of what was there, whose pods have that ConfigMap as their first volume
  -- and the hash of the configuration among their annotations; and has stored the status with that
  -- hash and the number of ready replicas that the Deployment has in the end, 0 if they cannot be
  -- read.
  pub deployed-reconcile_dhcp6_request :
      (namespace name config_json : String) (server : KeaDhcp6Server) (w : State Objects Owners)
      → api.get namespace name w.owners ≡ found server
      → dhcp6_config env (with_dhcp6_peer_urls server) ≡ ok config_json
      → (reconcile_dhcp6_request env api now namespace name w).0 ≡ done
      → let filled = with_dhcp6_peer_urls server in
        let hash = env.compute_hash config_json in
        let agent =
          dhcp6_stork_agent env filled
            (prepared env.client filled.meta "dhcp6" config_json env.is_open_shift w) in
        let cm = built_config_map filled.meta "dhcp6" config_json in
        let built = deployment (build_deployment (dhcp6_deployment_params filled hash agent)) in
        let w' = (reconcile_dhcp6_request env api now namespace name w).1 in
        (env.client.get (key_of cm) w'.objects
          ≡ found (reconciled env.client admitted cm w.objects))
        × (env.client.get (key_of built) w'.objects
            ≡ found (reconciled env.client admitted built w.objects))
        × RunsOn
            (build_deployment (dhcp6_deployment_params filled hash agent))
            (key_of cm).name
            hash
        × (api.update_status filled
              (dhcp6_status now hash
                (counted (env.client.ready_replicas (dhcp6_key filled) w'.objects))
                filled)
              w.owners
            ≡ (done, w'.owners))
  unfolding dhcp6_deployment_params reconcile_dhcp6_request reconcile_dhcp6_server
  deployed-reconcile_dhcp6_request namespace name config_json server w there printed h =
      let filled = with_dhcp6_peer_urls server in
      let same =
        ap (λ x. dhcp6_fetched env api now x w) there
        ∙ ap (λ x. dhcp6_rendered env api now filled x w) printed in
      let left = deployed filled config_json w (sym (ap (λ r. r.0) same) ∙ h) in
      let agent =
        dhcp6_stork_agent env filled
          (prepared env.client filled.meta "dhcp6" config_json env.is_open_shift w) in
      let hash = env.compute_hash config_json in
      rw same (
        left.0,
        left.1,
        RunsOn-build_deployment (dhcp6_deployment_params filled hash agent),
        left.2,
      )
