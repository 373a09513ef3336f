-- ===== src/Controller/Conditions.antt =====
-- internal/controller/reconciler.go: `setCondition`. The time, which the code reads from the clock,
-- is an argument.
use kea_dhcp_operator.Base.{
  String, ◌≡◌, refl, Option, none, some, List, [], ◌∷◌, ◌∙◌, inl, inr, arith, eq_iff, ◌==◌,
  Bool-cases, if◌then◌else◌, eq_comm,
}
use kea_dhcp_operator.Api.Common.{ConditionStatus}

-- The condition that is there already: a change of status sets the time.
unfoldable pub updated : String → String → String → String → ConditionStatus → ConditionStatus
updated now status reason message c = record c {
  last_transition_time = if c.status == status then c.last_transition_time else now;
  status = status;
  reason = reason;
  message = message;
}

unfoldable pub set_condition :
    String → String → String → String → String → List ConditionStatus → List ConditionStatus
unfolding updated
set_condition now kind status reason message [] =
    record {
      kind = kind;
      status = status;
      last_transition_time = now;
      reason = reason;
      message = message;
    }
    ∷ []
set_condition now kind status reason message (c ∷ cs) =
    if c.kind == kind
    then updated now status reason message c ∷ cs
    else c ∷ set_condition now kind status reason message cs

-- The first condition of a type, as a reader of the status finds it.
unfoldable pub find_condition : String → List ConditionStatus → Option ConditionStatus
find_condition kind [] = none
find_condition kind (c ∷ cs) = if c.kind == kind then some c else find_condition kind cs

-- What a reader finds after `set_condition`.
abbrev pub merged :
    String → String → String → String → String → Option ConditionStatus → ConditionStatus
merged now kind status reason message none = record {
  kind = kind;
  status = status;
  last_transition_time = now;
  reason = reason;
  message = message;
}
merged now kind status reason message (some c) = record {
  kind = c.kind;
  status = status;
  last_transition_time = if c.status == status then c.last_transition_time else now;
  reason = reason;
  message = message;
}

module _ (now kind status reason message : String) where
  -- After an update the type has the new status, reason and message, and its time of transition is
  -- the old one exactly if the status is the old one; every other type is as it was.
  pub find_condition-set_condition :
      (other : String) (cs : List ConditionStatus)
      → find_condition other (set_condition now kind status reason message cs) ≡ (
          if kind == other
          then some (merged now kind status reason message (find_condition kind cs))
          else find_condition other cs)
  unfolding find_condition set_condition updated
  find_condition-set_condition other [] = refl
  find_condition-set_condition other (c ∷ cs) = ground (
    arith,
    eq_iff c.kind kind,
    eq_iff c.kind other,
    eq_iff kind other,
    find_condition-set_condition other cs,
  )

-- No type stands twice.
abbrev pub HasDistinctKinds : List ConditionStatus → Type 0
HasDistinctKinds [] = Unit
HasDistinctKinds (c ∷ cs) = (find_condition c.kind cs ≡ none) × HasDistinctKinds cs

-- An update keeps the types distinct, as the merge key of the list asks.
pub set_condition-HasDistinctKinds :
    (now kind status reason message : String) (cs : List ConditionStatus)
    → HasDistinctKinds cs
    → HasDistinctKinds (set_condition now kind status reason message cs)
unfolding set_condition
set_condition-HasDistinctKinds now kind status reason message [] h =
    (unfold find_condition in refl, tt)
set_condition-HasDistinctKinds now kind status reason message (c ∷ cs) h =
    elim (Bool-cases (c.kind == kind)) [
      | inl same ↦ rw same h
      | inr other ↦ rw other (
        find_condition-set_condition now kind status reason message c.kind cs
            ∙ rw (eq_comm c.kind kind other) h.0,
        set_condition-HasDistinctKinds now kind status reason message cs h.1,
      )
    ]
