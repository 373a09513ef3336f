-- ===== src/Controller/Dhcp6/Success.antt =====
-- A reconciliation of a DHCPv6 server in which no call fails.
use kea_dhcp_operator.Api.Dhcp6.{KeaDhcp6Server, KeaDhcp6ServerStatus}
use kea_dhcp_operator.Controller.Environment.{Environment}
use kea_dhcp_operator.Controller.Dhcp6.{
  reconcile_dhcp6_request, reconcile_rendered_dhcp6, dhcp6_rendered, after_dhcp6_deployment,
  reconcile_dhcp6_server, dhcp6_config, with_dhcp6_peer_urls, dhcp6_fetched,
}
use kea_dhcp_operator.Controller.Steps.{State}
use kea_dhcp_operator.Controller.Steps.Errors.{render_failed_lem}
use kea_dhcp_operator.Controller.Steps.Success.{
  rendered_outcome, NeverFails, Succeeds-reading, Succeeds-standard, Succeeds-control_service_step,
  Succeeds-stork_monitoring_step, Succeeds-update_status,
}
use kea_dhcp_operator.Controller.Client.{done, found, Ends, Succeeds, Succeeds->>, OwnerApi}
use kea_dhcp_operator.Base.{String, ok, error, ap, ◌∙◌, ◌≡◌, Result}

module _ {Objects Owners : Type 0} (env : Environment Objects) (law : NeverFails env.client)
    (api : OwnerApi Owners KeaDhcp6Server KeaDhcp6ServerStatus) (now : String)
    (stores : (server : KeaDhcp6Server) (st : KeaDhcp6ServerStatus) (s : Owners)
      → (api.update_status server st s).0 ≡ done) where
  Succeeds-reconcile_rendered_dhcp6 :
      (server : KeaDhcp6Server) (config_json : String)
      → Succeeds (reconcile_rendered_dhcp6 env api now server config_json)
  unfolding reconcile_rendered_dhcp6 after_dhcp6_deployment
  Succeeds-reconcile_rendered_dhcp6 server config_json =
      Succeeds-standard env.client law server.meta "dhcp6" config_json env.is_open_shift _ _ _
        (λ agent.
          Succeeds->> _ _
            (Succeeds-control_service_step env.client law server.meta "dhcp6"
              server.spec.control_socket)
            (Succeeds->> _ _
              (Succeeds-stork_monitoring_step env.client law server.meta env.is_open_shift "dhcp6"
                agent)
              (Succeeds-reading _ _
                (λ ready. Succeeds-update_status api server _ (stores server _)))))

  rendered-outcome :
      (server : KeaDhcp6Server) (r : Result String)
      → Ends (rendered_outcome r) (dhcp6_rendered env api now server r)
  rendered-outcome server (ok config_json) w =
      Succeeds-reconcile_rendered_dhcp6 server config_json w
  rendered-outcome server (error e) w = ap (λ r. r.0) (render_failed_lem api server _ e w)

  -- If no call of the client fails and the status can be stored, a reconciliation of a DHCPv6 server
  -- that is there ends without an error when its configuration can be printed, and otherwise with the
  -- error of that.
  pub outcome-reconcile_dhcp6_request :
      (namespace name : String) (server : KeaDhcp6Server) (w : State Objects Owners)
      → api.get namespace name w.owners ≡ found server
      → (reconcile_dhcp6_request env api now namespace name w).0
        ≡ rendered_outcome (dhcp6_config env (with_dhcp6_peer_urls server))
  unfolding reconcile_dhcp6_request reconcile_dhcp6_server
  outcome-reconcile_dhcp6_request namespace name server w there =
      let filled = with_dhcp6_peer_urls server in
      ap (λ x. (dhcp6_fetched env api now x w).0) there
      ∙ rendered-outcome filled (dhcp6_config env filled) w
