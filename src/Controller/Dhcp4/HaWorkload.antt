-- ===== src/Controller/Dhcp4/HaWorkload.antt =====
-- The workload of a DHCPv4 server with high availability: `reconcileDhcp4HAWorkload`.
use kea_dhcp_operator.Controller.Steps.InPlace.{in_place_of, written-stateful_set}
use kea_dhcp_operator.Controller.Steps.Effect.{get-wrap-own}
use kea_dhcp_operator.Controller.Dhcp4.Workload.{
  peer_hosts, dhcp4_stateful_set_params, peers_of, dhcp4_replicas,
}
use kea_dhcp_operator.Resources.StatefulSet.{build_stateful_set}
use kea_dhcp_operator.Resources.Services.{build_headless_service, build_per_pod_service}
use kea_dhcp_operator.Api.Maps.{StringMap}
use kea_dhcp_operator.Controller.Dhcp4.Reconcile.{
  ha_workload, per_pod_services, stateful_set_with, dhcp4_service_params,
}
use kea_dhcp_operator.Controller.Steps.Frame.{
  IsBeside, Spares, Spares-skip, Spares->>, Spares-wrap, Spares-own,
}
use kea_dhcp_operator.Resources.Stork.{StorkSidecarParams}
use kea_dhcp_operator.Api.Dhcp4.{KeaDhcp4Server}
use kea_dhcp_operator.Controller.Environment.{Environment}
use kea_dhcp_operator.Controller.Steps.Standard.{reconciled, beside_apart}
use kea_dhcp_operator.Controller.Steps.{own, State}
use kea_dhcp_operator.Controller.Objects.{
  stateful_set, service, config_maps, Key, key_of, TakesEffect, Resource,
}
use kea_dhcp_operator.Controller.Client.{done, found, ◌>>◌, wrap, >>-next, >>-assoc}
use kea_dhcp_operator.Base.{
  String, ok, error, zero, suc, refl, [], ap, ◌∙◌, sym, ℕ, ◌≢◌, Option, Result, ◌≡◌,
}

abbrev pub set_of : KeaDhcp4Server → String → Option StorkSidecarParams → StringMap → Resource
set_of server config_hash agent hosts =
    stateful_set (build_stateful_set (dhcp4_stateful_set_params server config_hash hosts agent))

abbrev pub hosts_of : (String → Option String) → KeaDhcp4Server → Result StringMap
hosts_of hostname_of server = peer_hosts hostname_of server 0 (peers_of server) []

abbrev any_config_map : Key
any_config_map = record { kind = config_maps; namespace = ""; name = "" }

abbrev headless_of : KeaDhcp4Server → Resource
headless_of server = service (build_headless_service (dhcp4_service_params server))

abbrev pod_service_of : KeaDhcp4Server → ℕ → Resource
pod_service_of server i = service (build_per_pod_service (dhcp4_service_params server) i)

module _ {Objects Owners : Type 0} (env : Environment Objects) {admitted : Resource → Resource}
    (law : TakesEffect env.client admitted) (hostname_of : String → Option String)
    (server : KeaDhcp4Server) where
  module _ (k : Key) (beside : (obj : Resource) → IsBeside obj → key_of obj ≢ k) where
    Spares-per_pod_services :
        (i n : ℕ) → Spares Owners env.client law k (per_pod_services env server i n)
    unfolding per_pod_services
    Spares-per_pod_services i zero = Spares-skip Owners env.client law k
    Spares-per_pod_services i (suc n) =
        let first = own env.client server.meta (pod_service_of server i) in
        Spares->> Owners env.client law k _ (per_pod_services env server (suc i) n)
          (Spares-wrap Owners env.client law k _ first (
            Spares-own Owners env.client law k server.meta (pod_service_of server i)
              (beside (pod_service_of server i) tt)))
          (Spares-per_pod_services (suc i) n)

    -- The Services of the workload.
    Spares-headless :
        Spares Owners env.client law k
          (wrap "reconciling headless Service" (own env.client server.meta (headless_of server)))
    Spares-headless =
        Spares-wrap Owners env.client law k _ (own env.client server.meta (headless_of server)) (
          Spares-own Owners env.client law k server.meta (headless_of server)
            (beside (headless_of server) tt))

    Spares-services : Spares Owners env.client law k (
        wrap "reconciling headless Service" (own env.client server.meta (headless_of server))
        >> per_pod_services env server 0 (dhcp4_replicas server))
    Spares-services =
        Spares->> Owners env.client law k _ _ Spares-headless
          (Spares-per_pod_services 0 (dhcp4_replicas server))

  -- The last step of the workload, if it ends without an error.
  get-stateful_set_with :
      (config_hash : String) (agent : Option StorkSidecarParams) (r : Result StringMap)
      (w : State Objects Owners)
      → (stateful_set_with env server config_hash agent r w).0 ≡ done
      → let w' = (stateful_set_with env server config_hash agent r w).1 in
        (hosts : StringMap) × (r ≡ ok hosts)
        × (env.client.get (key_of (set_of server config_hash agent hosts)) w'.objects
            ≡ found
                (reconciled env.client admitted (set_of server config_hash agent hosts) w.objects))
        × (w'.owners ≡ w.owners)
  get-stateful_set_with config_hash agent (ok hosts) w h =
      let built = set_of server config_hash agent hosts in
      (
        hosts,
        refl,
        get-wrap-own env.client law server.meta "reconciling StatefulSet" built w h
            ∙ ap (λ x. found (admitted x))
                (written-stateful_set (env.client.get (key_of built) w.objects)
                  (build_stateful_set (dhcp4_stateful_set_params server config_hash hosts agent))),
        (Spares-wrap Owners env.client law any_config_map "reconciling StatefulSet"
            (own env.client server.meta built)
            (Spares-own Owners env.client law any_config_map server.meta built (λ e. cc)) w).1,
      )
  get-stateful_set_with config_hash agent (error e) w h = cc

  pub get-ha_workload :
      (config_hash : String) (agent : Option StorkSidecarParams) (w : State Objects Owners)
      → (ha_workload env server hostname_of config_hash agent w).0 ≡ done
      → let w' = (ha_workload env server hostname_of config_hash agent w).1 in
        (hosts : StringMap) × (hosts_of hostname_of server ≡ ok hosts)
        × (env.client.get (key_of (set_of server config_hash agent hosts)) w'.objects
            ≡ found
                (reconciled env.client admitted (set_of server config_hash agent hosts) w.objects))
        × (w'.owners ≡ w.owners)
  unfolding ha_workload
  get-ha_workload config_hash agent w h =
      let first =
        wrap "reconciling headless Service" (own env.client server.meta (headless_of server)) in
      let pods = per_pod_services env server 0 (dhcp4_replicas server) in
      let last = stateful_set_with env server config_hash agent (hosts_of hostname_of server) in
      let assoc = >>-assoc first pods last w in
      let run = >>-next (first >> pods) last w (sym (ap (λ r. r.0) assoc) ∙ h) in
      let w1 = ((first >> pods) w).1 in
      let ended = get-stateful_set_with config_hash agent (hosts_of hostname_of server) w1 run.1 in
      let built = set_of server config_hash agent ended.0 in
      let before = Spares-services (key_of built) (λ obj kind. (beside_apart obj kind _ _).2) w in
      rw assoc (
        rw run.2 (
          ended.0,
          ended.1,
          ended.2 ∙ ap (λ x. found (admitted (in_place_of x built))) before.0,
          ended.3 ∙ before.1,
        ))
