-- ===== src/Controller/Umbrella/Phase.antt =====
-- internal/controller/keaserver_controller.go: the status of the umbrella resource.
use mathlib.Core.Option
use kea_dhcp_operator.Base.{
  String, Bool, true, false, ◌≡◌, refl, Option, none, some, List, ◌▸◌, ◌&&◌, ◌||◌, not, is_some,
  Bool-cases, inl, inr, arith, if◌then◌else◌,
}
use kea_dhcp_operator.Base.Int.{ℤ}
use kea_dhcp_operator.Api.Common.{ConditionStatus}
use kea_dhcp_operator.Api.Server.{KeaServerSpec, KeaServerStatus}
use kea_dhcp_operator.Controller.Conditions.{
  set_condition, find_condition, find_condition-set_condition,
}
use kea_dhcp_operator.Controller.Status.{status-merged}

-- Which children are ready.
pub record ChildrenReady : Type 0 where
  pub dhcp4 : Bool
  pub dhcp6 : Bool
  pub control_agent : Bool
  pub dhcp_ddns : Bool
  pub stork_server : Bool

-- `allReady` and `anyConfigured`.
pub record Progress : Type 0 where
  pub all_ready : Bool
  pub any_configured : Bool

abbrev check : {A : Type 0} → Option A → Bool → Progress → Progress
check none ready p = p
check (some a) ready p = record {
  all_ready = if not ready then false else p.all_ready;
  any_configured = true;
}

unfoldable pub aggregate : KeaServerSpec → ChildrenReady → Progress
aggregate spec ready =
    start
    ▸ check spec.dhcp4 ready.dhcp4
    ▸ check spec.dhcp6 ready.dhcp6
    ▸ check spec.control_agent ready.control_agent
    ▸ check spec.dhcp_ddns ready.dhcp_ddns
    ▸ check spec.stork_server ready.stork_server
  where
    start : Progress
    start = record { all_ready = true; any_configured = false }

-- The phase and the conditions.
unfoldable pub set_phase : String → Progress → KeaServerStatus → KeaServerStatus
set_phase now p st =
    if not p.any_configured
    then record st {
      phase = "Pending";
      conditions =
          st.conditions
          ▸ set_condition now "Ready" "False" "NoComponents" "No components configured";
    }
    else if p.all_ready
    then record st {
      phase = "Running";
      conditions =
          st.conditions
          ▸ set_condition now "Ready" "True" "AllComponentsReady"
              "All configured components are ready"
          ▸ set_condition now "Progressing" "False" "DeploymentComplete" "All components deployed";
    }
    else record st {
      phase = "Progressing";
      conditions =
          st.conditions
          ▸ set_condition now "Ready" "False" "ComponentsProgressing"
              "Some components are not yet ready"
          ▸ set_condition now "Progressing" "True" "ComponentsProgressing" "Waiting for components";
    }

-- The status that is written.
unfoldable pub umbrella_status :
    String → ℤ → KeaServerSpec → ChildrenReady → KeaServerStatus → KeaServerStatus
unfolding set_phase
umbrella_status now generation spec ready st = set_phase now (aggregate spec ready) (record st {
  dhcp4_ready = ready.dhcp4;
  dhcp6_ready = ready.dhcp6;
  control_agent_ready = ready.control_agent;
  dhcp_ddns_ready = ready.dhcp_ddns;
  stork_server_ready = ready.stork_server;
  observed_generation = generation;
})

-- The same two facts, read off the spec: something is configured; all that is configured is ready.
abbrev pub configures_any : KeaServerSpec → Bool
configures_any spec =
    is_some spec.dhcp4
    || (is_some spec.dhcp6
        || (is_some spec.control_agent || (is_some spec.dhcp_ddns || is_some spec.stork_server)))

abbrev pub ready_if : {A : Type 0} → Option A → Bool → Bool
ready_if none ready = true
ready_if (some a) ready = ready

abbrev pub configured_ready : KeaServerSpec → ChildrenReady → Bool
configured_ready spec ready =
    ready_if spec.dhcp4 ready.dhcp4
    && (ready_if spec.dhcp6 ready.dhcp6
        && (ready_if spec.control_agent ready.control_agent
            && (ready_if spec.dhcp_ddns ready.dhcp_ddns
                && ready_if spec.stork_server ready.stork_server)))

any_configured-aggregate :
    (spec : KeaServerSpec) (ready : ChildrenReady)
    → (aggregate spec ready).any_configured ≡ configures_any spec
unfolding aggregate
any_configured-aggregate spec ready = ground arith

all_ready-aggregate :
    (spec : KeaServerSpec) (ready : ChildrenReady)
    → (aggregate spec ready).all_ready ≡ configured_ready spec ready
unfolding aggregate
all_ready-aggregate spec ready = ground arith

abbrev pub status_in : String → List ConditionStatus → Option String
status_in kind cs = Option.map (λ (c : ConditionStatus). c.status) (find_condition kind cs)

-- The umbrella resource is Pending if it configures nothing, Running if all that it configures is
-- ready, and Progressing otherwise; its condition Ready is "True" exactly when it is Running.
pub phase-umbrella_status :
    (now : String) (generation : ℤ) (spec : KeaServerSpec) (ready : ChildrenReady)
    (st : KeaServerStatus)
    → let st' = umbrella_status now generation spec ready st in
      (st'.phase ≡ (
        if not (configures_any spec)
        then "Pending"
        else if configured_ready spec ready
        then "Running"
        else "Progressing"))
      × (status_in "Ready" st'.conditions
          ≡ some (if configures_any spec && configured_ready spec ready then "True" else "False"))
unfolding umbrella_status
phase-umbrella_status now generation spec ready st =
    elim (Bool-cases (aggregate spec ready).any_configured) [
      | inl any ↦ elim (Bool-cases (aggregate spec ready).all_ready) [
        | inl all ↦
            rw (← any_configured-aggregate spec ready, ← all_ready-aggregate spec ready, any, all)
              (refl, simp (find_condition-set_condition, status-merged))
        | inr some_not ↦
            rw
              (
                ← any_configured-aggregate spec ready,
                ← all_ready-aggregate spec ready,
                any,
                some_not,
              )
              (refl, simp (find_condition-set_condition, status-merged))
      ]
      | inr nothing ↦
          rw (← any_configured-aggregate spec ready, nothing)
            (refl, simp (find_condition-set_condition, status-merged))
    ]
