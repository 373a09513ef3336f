-- ===== src/Controller/Dhcp4/HaDeployed.antt =====
-- What a reconciliation of a DHCPv4 server with high availability leaves behind.
use kea_dhcp_operator.Resources.StatefulSet.{build_stateful_set}
use kea_dhcp_operator.Controller.Dhcp4.Workload.{dhcp4_stateful_set_params}
use kea_dhcp_operator.Controller.Steps.InPlace.{in_place_of, config_hash-build_stateful_set}
use kea_dhcp_operator.Controller.Dhcp4.HaWorkload.{set_of, hosts_of, get-ha_workload}
use kea_dhcp_operator.Api.Ha.{HaConfig}
use kea_dhcp_operator.Base.Int.{ℤ}
use kea_dhcp_operator.Controller.Dhcp4.Peers.{fill_peer_urls}
use kea_dhcp_operator.Controller.Steps.Closing.{
  get-store_two, stored-store_two, counted, ready_replicas_lem,
}
use kea_dhcp_operator.Resources.Names.{stateful_set_name}
use kea_dhcp_operator.Controller.Dhcp4.Nad.{Ipv4}
use kea_dhcp_operator.Api.Maps.{StringMap, data_at}
use kea_dhcp_operator.Controller.Dhcp4.Reconcile.{
  ha_workload, reconcile_ha_dhcp4, dhcp4_stork_agent, after_dhcp4_workload, dhcp4_status,
  with_dhcp4_peer_urls, reconcile_dhcp4_request, reconcile_filled_dhcp4, dhcp4_ha_configs,
  dhcp4_fetched, after_ha_configs, dhcp4_rendered, dhcp4_config,
}
use kea_dhcp_operator.Controller.Steps.Frame.{
  Spares-service_account_step, Spares-scc_step, Spares-control_service_step,
  Spares-stork_monitoring_step,
}
use kea_dhcp_operator.Api.Dhcp4.{KeaDhcp4Server, KeaDhcp4ServerStatus}
use kea_dhcp_operator.Controller.Environment.{Environment}
use kea_dhcp_operator.Controller.Steps.Standard.{reconciled, beside_apart}
use kea_dhcp_operator.Controller.Steps.{
  State, reading, ready_replicas, scc_step, service_account_step, control_service_step,
  stork_monitoring_step,
}
use kea_dhcp_operator.Controller.Objects.{key_of, TakesEffect, Resource, stateful_sets}
use kea_dhcp_operator.Controller.Client.{done, found, >>-next, OwnerApi}
use kea_dhcp_operator.Base.{
  String, ok, refl, ap, ◌∙◌, sym, ℕ, Option, ◌≡◌, true, none, some, is_some, if◌then◌else◌,
}

-- The state in which the agent is resolved, after the ServiceAccount and its binding.
abbrev pub with_account :
    {Objects Owners : Type 0}
    → Environment Objects
    → KeaDhcp4Server
    → State Objects Owners
    → State Objects Owners
with_account env server w =
    (scc_step env.client server.meta env.is_open_shift
      (service_account_step env.client server.meta "dhcp4" w).1).1

is_some-fill_peer_urls :
    (namespace cr_name component : String) (port : ℤ) (ha : Option HaConfig)
    → is_some (fill_peer_urls namespace cr_name component port ha) ≡ is_some ha
unfolding fill_peer_urls
is_some-fill_peer_urls namespace cr_name component port none = refl
is_some-fill_peer_urls namespace cr_name component port (some ha) = refl

is_some-with_dhcp4_peer_urls :
    (server : KeaDhcp4Server)
    → is_some (with_dhcp4_peer_urls server).spec.high_availability
      ≡ is_some server.spec.high_availability
unfolding with_dhcp4_peer_urls
is_some-with_dhcp4_peer_urls server = is_some-fill_peer_urls _ _ _ _ server.spec.high_availability

-- The number of ready replicas once the StatefulSet is put.
abbrev pub ha_ready :
    {Objects Owners : Type 0}
    → Environment Objects
    → (String → Option String)
    → KeaDhcp4Server
    → String
    → State Objects Owners
    → ℕ
ha_ready env hostname_of server config_hash w =
    let w1 = with_account env server w in
    let w2 =
      (ha_workload env server hostname_of config_hash (dhcp4_stork_agent env server w1) w1).1 in
    counted (
      env.client.ready_replicas
        (record {
          kind = stateful_sets;
          namespace = server.meta.namespace;
          name = stateful_set_name server.meta.name "dhcp4";
        })
        w2.objects)

module _ {Objects Owners : Type 0} (env : Environment Objects)
    (api : OwnerApi Owners KeaDhcp4Server KeaDhcp4ServerStatus)
    (parse_cidr_v4 : String → Option Ipv4) (hostname_of : String → Option String) (now : String)
    {admitted : Resource → Resource} (law : TakesEffect env.client admitted) where
  abbrev HaDone : KeaDhcp4Server → String → State Objects Owners → State Objects Owners → Type 0
  HaDone server config_hash w w' =
      let agent = dhcp4_stork_agent env server (with_account env server w) in
      (hosts : StringMap) × (hosts_of hostname_of server ≡ ok hosts)
      × (env.client.get (key_of (set_of server config_hash agent hosts)) w'.objects
          ≡ found
              (reconciled env.client admitted (set_of server config_hash agent hosts) w.objects))
      × (api.update_status server
            (dhcp4_status env api parse_cidr_v4 hostname_of now server config_hash
              (ha_ready env hostname_of server config_hash w))
            w.owners
          ≡ (done, w'.owners))

  deployed_ha :
      (server : KeaDhcp4Server) (config_hash : String) (w : State Objects Owners)
      → (reconcile_ha_dhcp4 env api parse_cidr_v4 hostname_of now server config_hash w).0 ≡ done
      → HaDone server config_hash w
          (reconcile_ha_dhcp4 env api parse_cidr_v4 hostname_of now server config_hash w).1
  unfolding reconcile_ha_dhcp4 after_dhcp4_workload reading
  deployed_ha server config_hash w h =
      let w1 = (service_account_step env.client server.meta "dhcp4" w).1 in
      let w2 = with_account env server w in
      let agent = dhcp4_stork_agent env server w2 in
      let workload = ha_workload env server hostname_of config_hash agent in
      let w3 = (workload w2).1 in
      let r =
        ready_replicas env.client server.meta stateful_sets
          (stateful_set_name server.meta.name "dhcp4") in
      let m = control_service_step env.client server.meta "dhcp4" server.spec.control_socket in
      let n = stork_monitoring_step env.client server.meta env.is_open_shift "dhcp4" agent in
      let st = λ (ready : ℕ).
        dhcp4_status env api parse_cidr_v4 hostname_of now server config_hash ready in
      let s1 = >>-next (service_account_step env.client server.meta "dhcp4") _ w h in
      let s2 = >>-next (scc_step env.client server.meta env.is_open_shift) _ w1 s1.1 in
      let s3 = >>-next workload _ w2 s2.1 in
      let built_at = get-ha_workload env law hostname_of server config_hash agent w2 s3.0 in
      let built = set_of server config_hash agent built_at.0 in
      let k = key_of built in
      let account =
        Spares-service_account_step Owners env.client law k server.meta
          (λ obj kind. (beside_apart obj kind _ _).2) "dhcp4" w in
      let bound =
        Spares-scc_step Owners env.client law k server.meta
          (λ obj kind. (beside_apart obj kind _ _).2) env.is_open_shift w1 in
      let control =
        Spares-control_service_step Owners env.client law k server.meta
          (λ obj kind. (beside_apart obj kind _ _).2) "dhcp4" server.spec.control_socket in
      let monitoring =
        Spares-stork_monitoring_step Owners env.client law k server.meta
          (λ obj kind. (beside_apart obj kind _ _).2) env.is_open_shift "dhcp4" agent in
      let kept =
        get-store_two api server (λ _. r w3) st env.client law k m n control monitoring w3 s3.1 in
      let stored =
        stored-store_two api server (λ _. r w3) st env.client law k m n control monitoring
          (λ v1 v2 e. refl) w3 s3.1 in
      rw (s1.2 ∙ s2.2 ∙ s3.2) (
        built_at.0,
        built_at.1,
        kept ∙ built_at.2 ∙ ap (λ x. found (admitted (in_place_of x built))) (bound.0 ∙ account.0),
        ap (λ ready. api.update_status server (st ready) w.owners)
              (sym (
                ready_replicas_lem env.client server.meta stateful_sets
                  (stateful_set_name server.meta.name "dhcp4") w3))
            ∙ ap (λ o. api.update_status server (st (r w3)) o)
                (sym (built_at.3 ∙ bound.1 ∙ account.1))
            ∙ stored,
      )

  -- With a client whose calls without an error take effect, as the API server admits their objects:
  -- after a reconciliation of a DHCPv4 server that is there, with high availability, that ends
  -- without an error, the host names of its peers are safe for the shell, the StatefulSet of the
  -- peers stands in place of what was there after the ConfigMaps, its pods have the hash of all
  -- configurations among their annotations, and the status is stored with that hash and the number
  -- of replicas that were ready once the StatefulSet was put, 0 if they cannot be read.
  pub deployed_ha-reconcile_dhcp4_request :
      (namespace name : String) (server : KeaDhcp4Server) (w : State Objects Owners)
      → api.get namespace name w.owners ≡ found server
      → is_some server.spec.high_availability ≡ true
      → (reconcile_dhcp4_request env api parse_cidr_v4 hostname_of now namespace name w).0 ≡ done
      → let filled = with_dhcp4_peer_urls server in
        let configs = dhcp4_ha_configs env filled w.objects in
        let configured = record w { objects = configs.1 } in
        let agent = dhcp4_stork_agent env filled (with_account env filled configured) in
        let w' =
          (reconcile_dhcp4_request env api parse_cidr_v4 hostname_of now namespace name w).1 in
        (hosts : StringMap) × (hosts_of hostname_of filled ≡ ok hosts)
        × (env.client.get (key_of (set_of filled configs.0 agent hosts)) w'.objects
            ≡ found
                (reconciled env.client admitted (set_of filled configs.0 agent hosts) configs.1))
        × (data_at "kea.openshift.io/config-hash"
              (build_stateful_set
                (dhcp4_stateful_set_params filled configs.0 hosts agent)).spec.template.annotations
            ≡ some configs.0)
        × (api.update_status filled
              (dhcp4_status env api parse_cidr_v4 hostname_of now filled configs.0
                (ha_ready env hostname_of filled configs.0 configured))
              w.owners
            ≡ (done, w'.owners))
  unfolding dhcp4_stateful_set_params reconcile_dhcp4_request reconcile_filled_dhcp4
  deployed_ha-reconcile_dhcp4_request namespace name server w there ha_mode h =
      let filled = with_dhcp4_peer_urls server in
      let configs = dhcp4_ha_configs env filled w.objects in
      let filled_mode = is_some-with_dhcp4_peer_urls server ∙ ha_mode in
      let same =
        ap (λ x. dhcp4_fetched env api parse_cidr_v4 hostname_of now x w) there
        ∙ ap
            (λ b.
              (if b
                  then (λ (w1 : State Objects Owners).
                      after_ha_configs env api parse_cidr_v4 hostname_of now filled
                        (dhcp4_ha_configs env filled w1.objects) w1)
                  else dhcp4_rendered env api parse_cidr_v4 hostname_of now filled
                      (dhcp4_config env filled))
                w)
            filled_mode in
      let left =
        deployed_ha filled configs.0 (record w { objects = configs.1 })
          (sym (ap (λ r. r.0) same) ∙ h) in
      let agent =
        dhcp4_stork_agent env filled (with_account env filled (record w { objects = configs.1 })) in
      rw same (
        left.0,
        left.1,
        left.2,
        config_hash-build_stateful_set (dhcp4_stateful_set_params filled configs.0 left.0 agent),
        left.3,
      )
