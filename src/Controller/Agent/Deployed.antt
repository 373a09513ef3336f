-- ===== src/Controller/Agent/Deployed.antt =====
-- What a reconciliation of a control agent leaves behind.
use kea_dhcp_operator.Controller.Steps.InPlace.{RunsOn, RunsOn-build_deployment}
use kea_dhcp_operator.Controller.Steps.Closing.{
  get-store, stored-store, counted, ready_replicas_lem, ready_replicas-same,
}
use kea_dhcp_operator.Base.Int.{pos}
use kea_dhcp_operator.Resources.Deployment.{build_deployment}
use kea_dhcp_operator.Controller.Steps.Standard.{
  built_config_map, reconciled, standard-leaves, beside_apart,
}
use kea_dhcp_operator.Controller.Steps.Frame.{IsBeside, Spares, Spares-service_step}
use kea_dhcp_operator.Controller.Agent.{
  reconcile_agent_request, agent_service_step, reconcile_rendered_agent, after_agent_deployment,
  agent_config, deployment_name, reading, agent_deployment_params, service_params, agent_status,
  agent_fetched, agent_rendered,
}
use kea_dhcp_operator.Api.ControlAgent.{KeaControlAgent, KeaControlAgentStatus}
use kea_dhcp_operator.Controller.Environment.{Environment}
use kea_dhcp_operator.Base.{◌≡◌, ◌∙◌, sym, ap, String, ℕ, ok, ◌≢◌, get_or}
use kea_dhcp_operator.Controller.Client.{done, found, OwnerApi}
use kea_dhcp_operator.Controller.Objects.{
  deployment, Key, config_maps, deployments, Resource, TakesEffect, key_of,
}
use kea_dhcp_operator.Controller.Steps.{ready_replicas, State, reading}

-- The key of the Deployment.
abbrev pub agent_key : KeaControlAgent → Key
agent_key agent = record {
  kind = deployments;
  namespace = agent.meta.namespace;
  name = deployment_name agent.meta.name "ctrl-agent";
}

module _ {Objects Owners : Type 0} (env : Environment Objects)
    (api : OwnerApi Owners KeaControlAgent KeaControlAgentStatus) (now : String)
    {admitted : Resource → Resource} (law : TakesEffect env.client admitted) where
  abbrev agent_ready : KeaControlAgent → State Objects Owners → ℕ
  agent_ready agent =
      ready_replicas env.client agent.meta deployments
        (deployment_name agent.meta.name "ctrl-agent")

  agent_service-spares :
      (agent : KeaControlAgent) (k : Key)
      → ((obj : Resource) → IsBeside obj → key_of obj ≢ k)
      → Spares Owners env.client law k (agent_service_step env agent)
  unfolding agent_service_step
  agent_service-spares agent k beside =
      Spares-service_step Owners env.client law k agent.meta beside
        (service_params agent.meta "ctrl-agent" (get_or agent.spec.http_port (pos 8000)) "TCP")

  deployed :
      (agent : KeaControlAgent) (config_json : String) (w : State Objects Owners)
      → (reconcile_rendered_agent env api now agent config_json w).0 ≡ done
      → let hash = env.compute_hash config_json in
        let cm = built_config_map agent.meta "ctrl-agent" config_json in
        let built = deployment (build_deployment (agent_deployment_params agent hash)) in
        let w' = (reconcile_rendered_agent env api now agent config_json w).1 in
        (env.client.get (key_of cm) w'.objects
          ≡ found (reconciled env.client admitted cm w.objects))
        × (env.client.get (key_of built) w'.objects
            ≡ found (reconciled env.client admitted built w.objects))
        × (api.update_status agent
              (agent_status now hash
                (counted (env.client.ready_replicas (agent_key agent) w'.objects))
                agent)
              w.owners
            ≡ (done, w'.owners))
  unfolding reconcile_rendered_agent after_agent_deployment reading
  deployed agent config_json w h =
      let hash = env.compute_hash config_json in
      let m = agent_service_step env agent in
      let st = λ (ready : ℕ). agent_status now hash ready agent in
      standard-leaves env.client law agent.meta "ctrl-agent" config_json env.is_open_shift
        {A = Unit} (λ w'. tt) (λ a. agent_deployment_params agent hash)
        (λ a. after_agent_deployment env api now agent hash) api agent st
        (λ w1 w'. counted (env.client.ready_replicas (agent_key agent) w'.objects))
        (λ k beside a w' done'.
          get-store api agent (agent_ready agent) st env.client law k m
            (agent_service-spares agent k beside) w' done')
        (λ a w' done'.
          ap (λ ready. api.update_status agent (st ready) w'.owners)
            (sym (
              ready_replicas_lem env.client agent.meta deployments
                (deployment_name agent.meta.name "ctrl-agent")
                (after_agent_deployment env api now agent hash w').1))
          ∙ stored-store api agent (agent_ready agent) st env.client law
              (record { kind = config_maps; namespace = ""; name = "" }) m
              (agent_service-spares agent _ (λ obj beside. (beside_apart obj beside _ _).0))
              (ready_replicas-same env.client agent.meta deployments
                (deployment_name agent.meta.name "ctrl-agent"))
              w' done')
        w h

  -- With a client whose calls without an error take effect, as the API server admits their objects:
  -- a reconciliation of a control agent that is there, whose configuration can be printed, and that
  -- ends without an error, has put that configuration into its ConfigMap as the one file; has put
  -- the Deployment in place of what was there, whose pods have that ConfigMap as their first volume
  -- and the hash of the configuration among their annotations; and has stored the status with that
  -- hash and the number of ready replicas that the Deployment has in the end, 0 if they cannot be
  -- read.
  pub deployed-reconcile_agent_request :
      (namespace name config_json : String) (agent : KeaControlAgent) (w : State Objects Owners)
      → api.get namespace name w.owners ≡ found agent
      → agent_config env agent ≡ ok config_json
      → (reconcile_agent_request env api now namespace name w).0 ≡ done
      → let hash = env.compute_hash config_json in
        let cm = built_config_map agent.meta "ctrl-agent" config_json in
        let built = deployment (build_deployment (agent_deployment_params agent hash)) in
        let w' = (reconcile_agent_request env api now namespace name w).1 in
        (env.client.get (key_of cm) w'.objects
          ≡ found (reconciled env.client admitted cm w.objects))
        × (env.client.get (key_of built) w'.objects
            ≡ found (reconciled env.client admitted built w.objects))
        × RunsOn (build_deployment (agent_deployment_params agent hash)) (key_of cm).name hash
        × (api.update_status agent
              (agent_status now hash
                (counted (env.client.ready_replicas (agent_key agent) w'.objects))
                agent)
              w.owners
            ≡ (done, w'.owners))
  unfolding agent_deployment_params reconcile_agent_request
  deployed-reconcile_agent_request namespace name config_json agent w there printed h =
      let same =
        ap (λ x. agent_fetched env api now x w) there
        ∙ ap (λ x. agent_rendered env api now agent x w) printed in
      let left = deployed agent config_json w (sym (ap (λ r. r.0) same) ∙ h) in
      let hash = env.compute_hash config_json in
      rw same (left.0, left.1, RunsOn-build_deployment (agent_deployment_params agent hash), left.2)
