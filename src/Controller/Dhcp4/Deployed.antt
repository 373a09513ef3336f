-- ===== src/Controller/Dhcp4/Deployed.antt =====
-- What a reconciliation of a DHCPv4 server leaves behind, in standard mode.
use kea_dhcp_operator.Controller.Steps.InPlace.{RunsOn, RunsOn-build_deployment}
use kea_dhcp_operator.Controller.Steps.Errors.{is_ready_status-render_error, render_failed_lem}
use kea_dhcp_operator.Controller.Status.{is_ready_status}
use kea_dhcp_operator.Controller.Conditions.{find_condition, merged}
use kea_dhcp_operator.Controller.Pods.{peer_port}
use kea_dhcp_operator.Api.Ha.{HaConfig}
use kea_dhcp_operator.Controller.Steps.Frame.{
  Spares-control_service_step, Spares-stork_monitoring_step,
}
use kea_dhcp_operator.Controller.Steps.Closing.{
  get-store_two, stored-store_two, counted, ready_replicas_lem,
}
use kea_dhcp_operator.Resources.Names.{deployment_name}
use kea_dhcp_operator.Resources.Stork.{StorkSidecarParams}
use kea_dhcp_operator.Controller.Dhcp4.Workload.{dhcp4_deployment_params}
use kea_dhcp_operator.Resources.Deployment.{build_deployment}
use kea_dhcp_operator.Controller.Steps.Standard.{
  prepared, built_config_map, reconciled, standard-leaves, beside_apart,
}
use kea_dhcp_operator.Controller.Dhcp4.Peers.{fill_peer_urls}
use kea_dhcp_operator.Controller.Dhcp4.Nad.{Ipv4}
use kea_dhcp_operator.Api.Dhcp4.{KeaDhcp4Server, KeaDhcp4ServerStatus}
use kea_dhcp_operator.Controller.Environment.{Environment}
use kea_dhcp_operator.Base.{
  ◌≡◌, ◌∙◌, sym, ap, String, ℕ, ok, none, Option, if◌then◌else◌, is_some, error, false, some, ◌<>◌,
  refl,
}
use kea_dhcp_operator.Controller.Client.{done, found, OwnerApi, failed}
use kea_dhcp_operator.Controller.Objects.{
  deployment, config_maps, deployments, Resource, TakesEffect, key_of, Key,
}
use kea_dhcp_operator.Controller.Steps.{
  ready_replicas, reading, State, control_service_step, stork_monitoring_step, render_error,
  deployment_step,
}
use kea_dhcp_operator.Controller.Dhcp4.Reconcile.{
  dhcp4_rendered, reconcile_standard_dhcp4, reconcile_dhcp4_request, reconcile_filled_dhcp4,
  after_dhcp4_workload, with_dhcp4_peer_urls, dhcp4_stork_agent, dhcp4_config, dhcp4_status,
  dhcp4_fetched, after_ha_configs, dhcp4_ha_configs,
}

-- Without high availability there are no peers to fill in.
unfilled :
    (server : KeaDhcp4Server)
    → server.spec.high_availability ≡ none
    → with_dhcp4_peer_urls server ≡ server
unfolding with_dhcp4_peer_urls fill_peer_urls
unfilled server h =
    ap
      (λ (ha : Option HaConfig). record server {
        spec = record server.spec {
          high_availability =
              fill_peer_urls server.meta.namespace server.meta.name "dhcp4"
                (peer_port server.spec.control_socket) ha;
        };
      })
      h
    ∙ ap
        (λ (ha : Option HaConfig). record server {
          spec = record server.spec { high_availability = ha };
        })
        (sym h)

module _ {Objects Owners : Type 0} (env : Environment Objects)
    (api : OwnerApi Owners KeaDhcp4Server KeaDhcp4ServerStatus)
    (parse_cidr_v4 : String → Option Ipv4) (hostname_of : String → Option String)
    (now : String) where
  -- What a request runs in standard mode.
  standard_request :
      (namespace name : String) (server : KeaDhcp4Server) (w : State Objects Owners)
      → api.get namespace name w.owners ≡ found server
      → server.spec.high_availability ≡ none
      → reconcile_dhcp4_request env api parse_cidr_v4 hostname_of now namespace name w
        ≡ dhcp4_rendered env api parse_cidr_v4 hostname_of now server (dhcp4_config env server) w
  unfolding reconcile_dhcp4_request reconcile_filled_dhcp4
  standard_request namespace name server w there standard_mode =
      let run = reconcile_filled_dhcp4 env api parse_cidr_v4 hostname_of now in
      let rendered = dhcp4_rendered env api parse_cidr_v4 hostname_of now server in
      ap (λ x. dhcp4_fetched env api parse_cidr_v4 hostname_of now x w) there
      ∙ ap (λ s. run s w) (unfilled server standard_mode)
      ∙ ap
          (λ (ha : Option HaConfig).
            (if is_some ha
                then (λ (w1 : State Objects Owners).
                    after_ha_configs env api parse_cidr_v4 hostname_of now server
                      (dhcp4_ha_configs env server w1.objects) w1)
                else rendered (dhcp4_config env server))
              w)
          standard_mode

  -- A reconciliation of a DHCPv4 server that is there, without high availability, whose configuration cannot be printed ends with that error and
  -- touches no object; it has tried to store a status by which the umbrella controller reads the server
  -- as not ready, and whose condition on the configuration has the error as its message.
  pub failed-reconcile_dhcp4_request :
      (namespace name e : String) (server : KeaDhcp4Server) (w : State Objects Owners)
      → api.get namespace name w.owners ≡ found server
      → server.spec.high_availability ≡ none
      → dhcp4_config env server ≡ error e
      → let st = render_error now e server.status.component in
        (reconcile_dhcp4_request env api parse_cidr_v4 hostname_of now namespace name w ≡ (
          failed ("rendering config: " <> e),
          record w {
            owners =
                (api.update_status server (record server.status { component = st }) w.owners).1;
          },
        ))
        × (is_ready_status st ≡ false)
        × (find_condition "ConfigurationValid" st.conditions
            ≡ some (
                merged now "ConfigurationValid" "False" "RenderError" e
                  (find_condition "ConfigurationValid" server.status.component.conditions)))
  failed-reconcile_dhcp4_request namespace name e server w there standard_mode unprinted = (
    standard_request namespace name server w there standard_mode
        ∙ ap (λ x. dhcp4_rendered env api parse_cidr_v4 hostname_of now server x w) unprinted
        ∙ render_failed_lem api server _ e w,
    (is_ready_status-render_error now e server.status.component).0,
    (is_ready_status-render_error now e server.status.component).1,
  )

-- The key of the Deployment.
abbrev pub dhcp4_key : KeaDhcp4Server → Key
dhcp4_key server = record {
  kind = deployments;
  namespace = server.meta.namespace;
  name = deployment_name server.meta.name "dhcp4";
}

module _ {Objects Owners : Type 0} (env : Environment Objects)
    (api : OwnerApi Owners KeaDhcp4Server KeaDhcp4ServerStatus)
    (parse_cidr_v4 : String → Option Ipv4) (hostname_of : String → Option String) (now : String)
    {admitted : Resource → Resource} (law : TakesEffect env.client admitted) where
  deployed :
      (server : KeaDhcp4Server) (config_json : String) (w : State Objects Owners)
      → (reconcile_standard_dhcp4 env api parse_cidr_v4 hostname_of now server config_json w).0
        ≡ done
      → let hash = env.compute_hash config_json in
        let agent =
          dhcp4_stork_agent env server
            (prepared env.client server.meta "dhcp4" config_json env.is_open_shift w) in
        let cm = built_config_map server.meta "dhcp4" config_json in
        let built = deployment (build_deployment (dhcp4_deployment_params server hash agent)) in
        let w1 =
          (deployment_step env.client server.meta
            (dhcp4_deployment_params server hash agent)
            (prepared env.client server.meta "dhcp4" config_json env.is_open_shift w)).1 in
        let w' =
          (reconcile_standard_dhcp4 env api parse_cidr_v4 hostname_of now server config_json w).1 in
        (env.client.get (key_of cm) w'.objects
          ≡ found (reconciled env.client admitted cm w.objects))
        × (env.client.get (key_of built) w'.objects
            ≡ found (reconciled env.client admitted built w.objects))
        × (api.update_status server
              (dhcp4_status env api parse_cidr_v4 hostname_of now server hash
                (counted (env.client.ready_replicas (dhcp4_key server) w1.objects)))
              w.owners
            ≡ (done, w'.owners))
  unfolding reconcile_standard_dhcp4 after_dhcp4_workload reading
  deployed server config_json w h =
      let hash = env.compute_hash config_json in
      let m = control_service_step env.client server.meta "dhcp4" server.spec.control_socket in
      let n = λ (a : Option StorkSidecarParams).
        stork_monitoring_step env.client server.meta env.is_open_shift "dhcp4" a in
      let r =
        ready_replicas env.client server.meta deployments
          (deployment_name server.meta.name "dhcp4") in
      let st =
        λ (ready : ℕ). dhcp4_status env api parse_cidr_v4 hostname_of now server hash ready in
      standard-leaves env.client law server.meta "dhcp4" config_json env.is_open_shift
        (dhcp4_stork_agent env server) (λ a. dhcp4_deployment_params server hash a)
        (λ a. reading r (after_dhcp4_workload env api parse_cidr_v4 hostname_of now server hash a))
        api server st (λ w1 w'. counted (env.client.ready_replicas (dhcp4_key server) w1.objects))
        (λ k beside a w' done'.
          get-store_two api server (λ _. r w') st env.client law k m (n a)
            (Spares-control_service_step Owners env.client law k server.meta beside "dhcp4"
              server.spec.control_socket)
            (Spares-stork_monitoring_step Owners env.client law k server.meta beside
              env.is_open_shift "dhcp4" a)
            w' done')
        (λ a w' done'.
          ap (λ ready. api.update_status server (st ready) w'.owners)
            (sym (
              ready_replicas_lem env.client server.meta deployments
                (deployment_name server.meta.name "dhcp4") w'))
          ∙ stored-store_two api server (λ _. r w') st env.client law
              (record { kind = config_maps; namespace = ""; name = "" }) m (n a)
              (Spares-control_service_step Owners env.client law _ server.meta
                (λ obj kind. (beside_apart obj kind _ _).0) "dhcp4" server.spec.control_socket)
              (Spares-stork_monitoring_step Owners env.client law _ server.meta
                (λ obj kind. (beside_apart obj kind _ _).0) env.is_open_shift "dhcp4" a)
              (λ w1 w2 e. refl) w' done')
        w h

  -- With a client whose calls without an error take effect, as the API server admits their objects:
  -- a reconciliation of a DHCPv4 server that is there, without high availability, whose
  -- configuration can be printed, and that ends without an error, has put that configuration into
  -- its ConfigMap as the one file; has put the Deployment in place of what was there, whose pods
  -- have that ConfigMap as their first volume and the hash of the configuration among their
  -- annotations; and has stored the status with that hash and the number of ready replicas that the
  -- Deployment had once it was put, 0 if they cannot be read.
  pub deployed-reconcile_dhcp4_request :
      (namespace name config_json : String) (server : KeaDhcp4Server) (w : State Objects Owners)
      → api.get namespace name w.owners ≡ found server
      → server.spec.high_availability ≡ none
      → dhcp4_config env server ≡ ok config_json
      → (reconcile_dhcp4_request env api parse_cidr_v4 hostname_of now namespace name w).0 ≡ done
      → let hash = env.compute_hash config_json in
        let agent =
          dhcp4_stork_agent env server
            (prepared env.client server.meta "dhcp4" config_json env.is_open_shift w) in
        let cm = built_config_map server.meta "dhcp4" config_json in
        let built = deployment (build_deployment (dhcp4_deployment_params server hash agent)) in
        let w1 =
          (deployment_step env.client server.meta
            (dhcp4_deployment_params server hash agent)
            (prepared env.client server.meta "dhcp4" config_json env.is_open_shift w)).1 in
        let w' =
          (reconcile_dhcp4_request env api parse_cidr_v4 hostname_of now namespace name w).1 in
        (env.client.get (key_of cm) w'.objects
          ≡ found (reconciled env.client admitted cm w.objects))
        × (env.client.get (key_of built) w'.objects
            ≡ found (reconciled env.client admitted built w.objects))
        × RunsOn
            (build_deployment (dhcp4_deployment_params server hash agent))
            (key_of cm).name
            hash
        × (api.update_status server
              (dhcp4_status env api parse_cidr_v4 hostname_of now server hash
                (counted (env.client.ready_replicas (dhcp4_key server) w1.objects)))
              w.owners
            ≡ (done, w'.owners))
  unfolding dhcp4_deployment_params
  deployed-reconcile_dhcp4_request namespace name config_json server w there standard_mode printed
        h =
      let rendered = dhcp4_rendered env api parse_cidr_v4 hostname_of now server in
      let same =
        standard_request env api parse_cidr_v4 hostname_of now namespace name server w there
          standard_mode
        ∙ ap (λ x. rendered x w) printed in
      let left = deployed server config_json w (sym (ap (λ r. r.0) same) ∙ h) in
      let agent =
        dhcp4_stork_agent env server
          (prepared env.client server.meta "dhcp4" config_json env.is_open_shift w) in
      let hash = env.compute_hash config_json in
      rw same (
        left.0,
        left.1,
        RunsOn-build_deployment (dhcp4_deployment_params server hash agent),
        left.2,
      )
