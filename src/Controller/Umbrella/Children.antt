-- ===== src/Controller/Umbrella/Children.antt =====
-- internal/controller/keaserver_controller.go: each child resource is created, updated or deleted.
use kea_dhcp_operator.Base.{String, ◌≡◌, refl, Option, none, some}
use kea_dhcp_operator.Controller.Client.{
  Outcome, done, failed, Fetched, found, not_found, get_failed, ChildApi, IsFaithful,
}

-- The child that a spec asks for.
abbrev pub Matches : {Child Spec : Type 0} → (Child → Spec) → Option Spec → Fetched Child → Type 0
Matches spec_of none not_found = Unit
Matches spec_of (some spec) (found c) = spec_of c ≡ spec
Matches spec_of _ _ = ⊥

module _ {Store Child Spec : Type 0} (api : ChildApi Store Child Spec) where
  -- A child that no spec asks for is deleted if it is there.
  abbrev remove_child : String → String → Store → Fetched Child → Outcome × Store
  remove_child ns child_name s (found existing) = api.delete ns child_name s
  remove_child ns child_name s not_found = (done, s)
  remove_child ns child_name s (get_failed e) = (failed e, s)

  -- `reconcileDhcp4` and the four functions like it, over the client for their kind.
  unfoldable pub reconcile_child : Option Spec → String → String → Store → Outcome × Store
  reconcile_child none ns child_name s = remove_child ns child_name s (api.get ns child_name s)
  reconcile_child (some spec) ns child_name s = api.create_or_update ns child_name spec s

module _ {Store Child Spec : Type 0} (api : ChildApi Store Child Spec) (spec_of : Child → Spec)
    (law : IsFaithful api spec_of) where
  Matches-found :
      (spec : Spec) (r : Fetched Child)
      → (c : Child) × (r ≡ found c) × (spec_of c ≡ spec)
      → Matches spec_of (some spec) r
  Matches-found spec r (c, e, q) = rw e q

  Matches-remove_child :
      (ns name : String) (s : Store) (r : Fetched Child)
      → api.get ns name s ≡ r
      → (remove_child api ns name s r).0 ≡ done
      → Matches spec_of none (api.get ns name (remove_child api ns name s r).1)
  Matches-remove_child ns name s (found c) e h = rw (law.get-delete ns name s h) tt
  Matches-remove_child ns name s not_found e h = rw e tt
  Matches-remove_child ns name s (get_failed x) e h = cc

  -- After a call without an error the child is as the spec asks: there with that spec, or gone.
  pub Matches-reconcile_child :
      (desired : Option Spec) (ns name : String) (s : Store)
      → (reconcile_child api desired ns name s).0 ≡ done
      → Matches spec_of desired (api.get ns name (reconcile_child api desired ns name s).1)
  unfolding reconcile_child
  Matches-reconcile_child none ns name s h =
      Matches-remove_child ns name s (api.get ns name s) refl h
  Matches-reconcile_child (some spec) ns name s h =
      Matches-found spec _ (law.get-create_or_update ns name spec s h)
