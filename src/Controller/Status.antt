-- ===== src/Controller/Status.antt =====
-- The status that the reconcilers of the components write, and how the umbrella controller reads it.
use mathlib.Core.Option
use kea_dhcp_operator.Base.{
  String, Bool, true, false, ◌≡◌, refl, Option, none, some, List, [], ◌∷◌, inl, inr, arith, ◌==◌,
  ◌<>◌, ◌&&◌, Bool-cases, if◌then◌else◌, ◌▸◌,
}
use kea_dhcp_operator.Base.Int.{ℤ, pos, ltb_ℤ, eq_ℤ}
use kea_dhcp_operator.Base.Decimal.{decimal_ℤ}
use kea_dhcp_operator.Api.Common.{ConditionStatus, ComponentStatus}
use kea_dhcp_operator.Controller.Conditions.{
  set_condition, find_condition, merged, find_condition-set_condition,
}

-- readyReplicas > 0 && readyReplicas == replicas
unfoldable pub all_ready : ℤ → ℤ → Bool
all_ready ready_replicas replicas = ltb_ℤ (pos 0) ready_replicas && eq_ℤ ready_replicas replicas

-- The phase and the conditions for a number of ready replicas.
unfoldable pub set_replica_phase : String → ℤ → ℤ → ComponentStatus → ComponentStatus
set_replica_phase now ready_replicas replicas st =
    if all_ready ready_replicas replicas
    then record st {
      phase = "Running";
      conditions =
          st.conditions
          ▸ set_condition now "Ready" "True" "DeploymentReady" "All replicas are ready"
          ▸ set_condition now "Progressing" "False" "DeploymentComplete" "Deployment is complete";
    }
    else record st {
      phase = "Progressing";
      conditions =
          st.conditions
          ▸ set_condition now "Ready" "False" "DeploymentProgressing"
              (decimal_ℤ ready_replicas <> "/" <> decimal_ℤ replicas <> " replicas ready")
          ▸ set_condition now "Progressing" "True" "DeploymentProgressing" "Waiting for replicas";
    }

-- The status of a component after a reconciliation.
unfoldable pub component_status :
    String → String → String → ℤ → ℤ → ℤ → ComponentStatus → ComponentStatus
unfolding set_replica_phase
component_status now config_hash config_map_ref generation ready_replicas replicas st =
    set_replica_phase now ready_replicas replicas (record st {
      ready_replicas = ready_replicas;
      config_hash = config_hash;
      config_map_ref = config_map_ref;
      observed_generation = generation;
    })

-- The loop over the conditions of `isChildReady`.
unfoldable pub ready_condition : List ConditionStatus → Bool
ready_condition [] = true
ready_condition (c ∷ cs) = if c.kind == "Ready" then c.status == "True" else ready_condition cs

-- `isChildReady`, for a child that was fetched.
unfoldable pub is_ready_status : ComponentStatus → Bool
unfolding ready_condition
is_ready_status st = if st.phase == "Running" then ready_condition st.conditions else false

abbrev status_is_true : Option ConditionStatus → Bool
status_is_true none = true
status_is_true (some c) = c.status == "True"

ready_condition-find_condition :
    (cs : List ConditionStatus) → ready_condition cs ≡ status_is_true (find_condition "Ready" cs)
unfolding ready_condition find_condition
ready_condition-find_condition [] = refl
ready_condition-find_condition (c ∷ cs) = ground (arith, ready_condition-find_condition cs)

pub status-merged :
    (now kind status reason message : String) (o : Option ConditionStatus)
    → (merged now kind status reason message o).status ≡ status
status-merged now kind status reason message none = refl
status-merged now kind status reason message (some c) = refl

-- What a component's reconciler reports is what the umbrella controller reads: the component counts
-- as ready exactly if it has replicas and all of them are ready, whatever its status was before.
pub is_ready_status-component_status :
    (now config_hash config_map_ref : String) (generation ready_replicas replicas : ℤ)
    (st : ComponentStatus)
    → is_ready_status
        (component_status now config_hash config_map_ref generation ready_replicas replicas st)
      ≡ all_ready ready_replicas replicas
unfolding is_ready_status component_status
is_ready_status-component_status now config_hash config_map_ref generation ready_replicas replicas
      st =
    elim (Bool-cases (all_ready ready_replicas replicas)) [
      | inl done ↦
          rw done
            (rw ready_condition-find_condition (simp (find_condition-set_condition, status-merged)))
      | inr waiting ↦ rw waiting
    ]

-- The component's status says Running with Ready "True" and Progressing "False", or Progressing with
-- Ready "False" and Progressing "True", as all replicas are ready or not.
pub conditions-component_status :
    (now config_hash config_map_ref : String) (generation ready_replicas replicas : ℤ)
    (st : ComponentStatus)
    → let st' =
        component_status now config_hash config_map_ref generation ready_replicas replicas st in
      let done = all_ready ready_replicas replicas in
      (st'.phase ≡ (if done then "Running" else "Progressing"))
      × (Option.map (λ (c : ConditionStatus). c.status) (find_condition "Ready" st'.conditions)
          ≡ some (if done then "True" else "False"))
      × (Option.map
            (λ (c : ConditionStatus). c.status)
            (find_condition "Progressing" st'.conditions)
          ≡ some (if done then "False" else "True"))
unfolding component_status
conditions-component_status now config_hash config_map_ref generation ready_replicas replicas st =
    elim (Bool-cases (all_ready ready_replicas replicas)) [
      | inl done ↦ rw done (
        refl,
        simp (find_condition-set_condition, status-merged),
        simp (find_condition-set_condition, status-merged),
      )
      | inr waiting ↦ rw waiting (
        refl,
        simp (find_condition-set_condition, status-merged),
        simp (find_condition-set_condition, status-merged),
      )
    ]
