-- ===== src/Controller/Steps/Standard.antt =====
-- A reconciliation with one ConfigMap and one Deployment: the first steps that the reconcilers of all four
-- components have in common.
use kea_dhcp_operator.Resources.Names.{config_map_name, config_file_name}
use kea_dhcp_operator.Api.Workloads.{DataObject}
use kea_dhcp_operator.Controller.Steps.InPlace.{in_place_of, written-config_map, written-deployment}
use kea_dhcp_operator.Controller.Steps.Effect.{get-wrap-own}
use kea_dhcp_operator.Controller.Client.{>>-next, OwnerApi}
use kea_dhcp_operator.Resources.Services.{build_config_map}
use kea_dhcp_operator.Controller.Steps.{
  State, common_labels, scc_step, DeploymentParams, Run, service_account_step, reading,
  config_map_step, ◌>>◌, done, deployment_step, found, build_deployment, own,
}
use kea_dhcp_operator.Api.Kube.{ObjectMeta}
use kea_dhcp_operator.Controller.Steps.Frame.{
  IsBeside, Spares-service_account_step, Spares, Spares-wrap, Spares-scc_step, Spares-own,
}
use kea_dhcp_operator.Controller.Objects.{
  config_map, secret, deployment, stateful_set, route, role_binding, service, service_account,
  pod_monitor, config_maps, deployments, stateful_sets, Client, Key, Resource, TakesEffect, key_of,
}
use kea_dhcp_operator.Base.{◌≡◌, ◌∙◌, ◌≢◌, ap, String, Bool, ℕ, sym, ◌∷◌, []}

-- An object beside the workload has a key of its own.
pub beside_apart :
    (obj : Resource)
    → IsBeside obj
    → (namespace name : String)
    → (key_of obj ≢ record { kind = config_maps; namespace = namespace; name = name })
      × (key_of obj ≢ record { kind = deployments; namespace = namespace; name = name })
      × (key_of obj ≢ record { kind = stateful_sets; namespace = namespace; name = name })
beside_apart (config_map x) h ns name = absurd h
beside_apart (secret x) h ns name = absurd h
beside_apart (deployment x) h ns name = absurd h
beside_apart (stateful_set x) h ns name = absurd h
beside_apart (service x) h ns name = (
  λ e. cc (ap (λ (k : Key). k.kind) e),
  λ e. cc (ap (λ (k : Key). k.kind) e),
  λ e. cc (ap (λ (k : Key). k.kind) e),
)
beside_apart (service_account x) h ns name = (
  λ e. cc (ap (λ (k : Key). k.kind) e),
  λ e. cc (ap (λ (k : Key). k.kind) e),
  λ e. cc (ap (λ (k : Key). k.kind) e),
)
beside_apart (pod_monitor x) h ns name = (
  λ e. cc (ap (λ (k : Key). k.kind) e),
  λ e. cc (ap (λ (k : Key). k.kind) e),
  λ e. cc (ap (λ (k : Key). k.kind) e),
)
beside_apart (role_binding x) h ns name = (
  λ e. cc (ap (λ (k : Key). k.kind) e),
  λ e. cc (ap (λ (k : Key). k.kind) e),
  λ e. cc (ap (λ (k : Key). k.kind) e),
)
beside_apart (route x) h ns name = (
  λ e. cc (ap (λ (k : Key). k.kind) e),
  λ e. cc (ap (λ (k : Key). k.kind) e),
  λ e. cc (ap (λ (k : Key). k.kind) e),
)

-- The ConfigMap of a component: one file, with the configuration.
abbrev config_map_data : ObjectMeta → String → String → DataObject
config_map_data owner component config_json = record {
  meta = record {
    name = config_map_name owner.name component;
    namespace = owner.namespace;
    labels = common_labels owner.name component;
  };
  entries = (config_file_name component, config_json) ∷ [];
}

abbrev pub built_config_map : ObjectMeta → String → String → Resource
built_config_map owner component config_json =
    config_map (config_map_data owner component config_json)

-- An object as the server has it once it is reconciled.
abbrev pub reconciled :
    {Objects : Type 0} → Client Objects → (Resource → Resource) → Resource → Objects → Resource
reconciled client admitted obj s = admitted (in_place_of (client.get (key_of obj) s) obj)

-- The state that the agent is resolved in, after the ConfigMap and the ServiceAccount.
abbrev pub prepared :
    {Objects Owners : Type 0}
    → Client Objects
    → ObjectMeta
    → String
    → String
    → Bool
    → State Objects Owners
    → State Objects Owners
prepared client owner component config_json is_open_shift w =
    (scc_step client owner is_open_shift
      (service_account_step client owner component
        (config_map_step client owner component config_json w).1).1).1

module _ {Objects Owners : Type 0} (client : Client Objects) {admitted : Resource → Resource}
    (law : TakesEffect client admitted) (owner : ObjectMeta) (component config_json : String)
    (is_open_shift : Bool) where
  config_map_step-spares :
      (k : Key)
      → key_of (built_config_map owner component config_json) ≢ k
      → Spares Owners client law k (config_map_step client owner component config_json)
  unfolding config_map_step build_config_map
  config_map_step-spares k other =
      Spares-wrap Owners client law k "reconciling ConfigMap"
        (own client owner (built_config_map owner component config_json))
        (Spares-own Owners client law k owner (built_config_map owner component config_json) other)

  deployment_step-spares :
      (k : Key) (q : DeploymentParams)
      → key_of (deployment (build_deployment q)) ≢ k
      → Spares Owners client law k (deployment_step client owner q)
  unfolding deployment_step
  deployment_step-spares k q other =
      Spares-wrap Owners client law k "reconciling Deployment"
        (own client owner (deployment (build_deployment q)))
        (Spares-own Owners client law k owner (deployment (build_deployment q)) other)

  get-config_map_step :
      (w : State Objects Owners)
      → (config_map_step client owner component config_json w).0 ≡ done
      → client.get
          (key_of (built_config_map owner component config_json))
          (config_map_step client owner component config_json w).1.objects
        ≡ found
            (reconciled client admitted (built_config_map owner component config_json) w.objects)
  unfolding config_map_step build_config_map
  get-config_map_step w h =
      get-wrap-own client law owner "reconciling ConfigMap"
        (built_config_map owner component config_json) w h
      ∙ ap (λ x. found (admitted x))
          (written-config_map
            (client.get (key_of (built_config_map owner component config_json)) w.objects)
            (config_map_data owner component config_json))

  get-deployment_step :
      (q : DeploymentParams) (w : State Objects Owners)
      → (deployment_step client owner q w).0 ≡ done
      → client.get
          (key_of (deployment (build_deployment q)))
          (deployment_step client owner q w).1.objects
        ≡ found (reconciled client admitted (deployment (build_deployment q)) w.objects)
  unfolding deployment_step
  get-deployment_step q w h =
      get-wrap-own client law owner "reconciling Deployment" (deployment (build_deployment q)) w h
      ∙ ap (λ x. found (admitted x))
          (written-deployment (client.get (key_of (deployment (build_deployment q))) w.objects)
            (build_deployment q))

  -- The ServiceAccount and the binding, from one state to another.
  account-spares :
      (k : Key)
      → ((obj : Resource) → IsBeside obj → key_of obj ≢ k)
      → (w : State Objects Owners)
      → let w' =
          (scc_step client owner is_open_shift
            (service_account_step client owner component w).1).1 in
        (client.get k w'.objects ≡ client.get k w.objects) × (w'.owners ≡ w.owners)
  account-spares k beside w =
      let first = Spares-service_account_step Owners client law k owner beside component w in
      let second =
        Spares-scc_step Owners client law k owner beside is_open_shift
          (service_account_step client owner component w).1 in
      (second.0 ∙ first.0, second.1 ∙ first.1)

  module _ {A : Type 0} (f : State Objects Owners → A) (p : A → DeploymentParams)
      (after : A → Run (State Objects Owners)) where
    abbrev pub standard : Run (State Objects Owners)
    standard =
        config_map_step client owner component config_json
        >> service_account_step client owner component
        >> scc_step client owner is_open_shift
        >> reading f (λ a. deployment_step client owner (p a) >> after a)

    pub standard-done :
        (w : State Objects Owners)
        → (standard w).0 ≡ done
        → let a = f (prepared client owner component config_json is_open_shift w) in
          let w' =
            (deployment_step client owner
              (p a)
              (prepared client owner component config_json is_open_shift w)).1 in
          (standard w ≡ after a w')
          × ((after a w').0 ≡ done)
          × (w'.owners ≡ w.owners)
          × (client.get (key_of (built_config_map owner component config_json)) w'.objects
              ≡ found (
                  reconciled client admitted
                    (built_config_map owner component config_json)
                    w.objects))
          × (client.get (key_of (deployment (build_deployment (p a)))) w'.objects
              ≡ found (reconciled client admitted (deployment (build_deployment (p a))) w.objects))
    unfolding reading
    standard-done w h =
        let w1 = (config_map_step client owner component config_json w).1 in
        let w2 = (service_account_step client owner component w1).1 in
        let w3 = (scc_step client owner is_open_shift w2).1 in
        let a = f w3 in
        let s1 = >>-next (config_map_step client owner component config_json) _ w h in
        let s2 = >>-next (service_account_step client owner component) _ w1 s1.1 in
        let s3 = >>-next (scc_step client owner is_open_shift) _ w2 s2.1 in
        let s4 = >>-next (deployment_step client owner (p a)) (after a) w3 s3.1 in
        let built = deployment (build_deployment (p a)) in
        let kc = key_of (built_config_map owner component config_json) in
        let kd = key_of built in
        let before_d = config_map_step-spares kd (λ e. cc) w in
        let after_c = deployment_step-spares kc (p a) (λ e. cc) w3 in
        let middle_c = account-spares kc (λ obj h. (beside_apart obj h _ _).0) w1 in
        let middle_d = account-spares kd (λ obj h. (beside_apart obj h _ _).1) w1 in
        (
          s1.2 ∙ s2.2 ∙ s3.2 ∙ s4.2,
          s4.1,
          after_c.1 ∙ middle_c.1 ∙ before_d.1,
          after_c.0 ∙ middle_c.0 ∙ get-config_map_step w s1.0,
          get-deployment_step (p a) w3 s4.0
              ∙ ap (λ x. found (admitted (in_place_of x built))) (middle_d.0 ∙ before_d.0),
        )

    -- All that such a reconciliation leaves behind, if what follows the Deployment spares it and the
    -- ConfigMap, and stores a status.
    module _ {Owner Status : Type 0} (api : OwnerApi Owners Owner Status) (server : Owner)
        (st : ℕ → Status) (count : State Objects Owners → State Objects Owners → ℕ)
        (closes : (k : Key)
          → ((obj : Resource) → IsBeside obj → key_of obj ≢ k)
          → (a : A) (w : State Objects Owners) → (after a w).0 ≡ done
          → client.get k (after a w).1.objects ≡ client.get k w.objects)
        (stores : (a : A) (w : State Objects Owners)
          → (after a w).0 ≡ done
          → api.update_status server (st (count w (after a w).1)) w.owners
            ≡ (done, (after a w).1.owners)) where
      pub standard-leaves :
          (w : State Objects Owners)
          → (standard w).0 ≡ done
          → let cm = built_config_map owner component config_json in
            let a = f (prepared client owner component config_json is_open_shift w) in
            let built = deployment (build_deployment (p a)) in
            let w1 =
              (deployment_step client owner
                (p a)
                (prepared client owner component config_json is_open_shift w)).1 in
            let w' = (standard w).1 in
            (client.get (key_of cm) w'.objects ≡ found (reconciled client admitted cm w.objects))
            × (client.get (key_of built) w'.objects
                ≡ found (reconciled client admitted built w.objects))
            × (api.update_status server (st (count w1 w')) w.owners ≡ (done, w'.owners))
      standard-leaves w h =
          let run = standard-done w h in
          let a = f (prepared client owner component config_json is_open_shift w) in
          let w1 =
            (deployment_step client owner (p a)
              (prepared client owner component config_json is_open_shift w)).1 in
          let last = stores a w1 run.1 in
          rw run.0 (
            closes (key_of (built_config_map owner component config_json))
                  (λ obj kind. (beside_apart obj kind _ _).0) a w1 run.1
                ∙ run.3,
            closes (key_of (deployment (build_deployment (p a))))
                  (λ obj kind. (beside_apart obj kind _ _).1) a w1 run.1
                ∙ run.4,
            ap (λ o. api.update_status server (st (count w1 (after a w1).1)) o) (sym run.2) ∙ last,
          )
