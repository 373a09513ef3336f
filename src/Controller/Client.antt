-- ===== src/Controller/Client.antt =====
-- The parts of the Kubernetes client that the reconcilers call, as an interface: the client and the
-- API server behind it are not code of this repository. A store holds the objects of one kind.
use kea_dhcp_operator.Base.{String, ◌≡◌, refl, ◌<>◌, ◌∙◌, sym, ap, ◌⊎◌, inl, inr}

-- The error of a call; the empty error is success.
pub data Outcome : Type 0 where
  done : Outcome
  failed : String → Outcome

-- client.Get: the object, a NotFound error, or another error.
pub data Fetched (A : Type 0) : Type 0 where
  found : A → Fetched A
  not_found : Fetched A
  get_failed : String → Fetched A

-- The objects of one kind, with the spec, by namespace and name. `create_or_update` is
-- controllerutil.CreateOrUpdate with a function that sets the spec and the controller reference.
pub record ChildApi (Store Child Spec : Type 0) : Type 0 where
  pub get : String → String → Store → Fetched Child
  pub delete : String → String → Store → Outcome × Store
  pub create_or_update : String → String → Spec → Store → Outcome × Store

-- What the API server promises of them: a call without an error has taken effect.
pub record IsFaithful {Store Child Spec : Type 0} (api : ChildApi Store Child Spec)
    (spec_of : Child → Spec) : Type 0 where
  pub get-create_or_update :
      (ns name : String) (spec : Spec) (s : Store)
      → (api.create_or_update ns name spec s).0 ≡ done
      → (c : Child) × (api.get ns name (api.create_or_update ns name spec s).1 ≡ found c)
        × (spec_of c ≡ spec)
  pub get-delete :
      (ns name : String) (s : Store)
      → (api.delete ns name s).0 ≡ done
      → api.get ns name (api.delete ns name s).1 ≡ not_found

-- A sequence of calls: an error ends it, and what was done before stays done.
abbrev pub Run : Type 0 → Type 0
Run World = World → Outcome × World

abbrev continue : {World : Type 0} → Outcome × World → Run World → Outcome × World
continue (done, w) k = k w
continue (failed e, w) k = (failed e, w)

abbrev with_prefix : {World : Type 0} → String → Outcome × World → Outcome × World
with_prefix prefix (done, w) = (done, w)
with_prefix prefix (failed e, w) = (failed (prefix <> ": " <> e), w)

infixr 6 ◌>>◌
unfoldable pub ◌>>◌ : {World : Type 0} → Run World → Run World → Run World
◌>>◌ m k w = continue (m w) k

-- fmt.Errorf("prefix: %w", err)
unfoldable pub wrap : {World : Type 0} → String → Run World → Run World
wrap prefix m w = with_prefix prefix (m w)

module _ {World : Type 0} where
  continue-done :
      (r : Outcome × World) (k : Run World)
      → (continue r k).0 ≡ done
      → (r.0 ≡ done) × (continue r k ≡ k r.1)
  continue-done (done, w) k h = (refl, refl)
  continue-done (failed e, w) k h = cc

  pub >>-done :
      (m k : Run World) (w : World)
      → ((m >> k) w).0 ≡ done
      → ((m w).0 ≡ done) × ((m >> k) w ≡ k (m w).1)
  unfolding ◌>>◌
  >>-done m k w = continue-done (m w) k

  -- A first call, what follows it, and both together.
  pub >>-next :
      (m k : Run World) (w : World)
      → ((m >> k) w).0 ≡ done
      → ((m w).0 ≡ done) × ((k (m w).1).0 ≡ done) × ((m >> k) w ≡ k (m w).1)
  >>-next m k w h =
      let first = >>-done m k w h in (first.0, sym (ap (λ r. r.0) first.1) ∙ h, first.1)

  continue-continue :
      (r : Outcome × World) (k l : Run World)
      → continue r (λ w. continue (k w) l) ≡ continue (continue r k) l
  continue-continue (done, w) k l = refl
  continue-continue (failed e, w) k l = refl

  pub >>-assoc : (m k l : Run World) (w : World) → (m >> (k >> l)) w ≡ ((m >> k) >> l) w
  unfolding ◌>>◌
  >>-assoc m k l w = continue-continue (m w) k l

  continue-cases :
      (r : Outcome × World) (k : Run World) → (continue r k ≡ k r.1) ⊎ ((continue r k).1 ≡ r.1)
  continue-cases (done, w) k = inl refl
  continue-cases (failed e, w) k = inr refl

  -- What follows is done, or the state stays as it was.
  pub >>-cases :
      (m k : Run World) (w : World) → ((m >> k) w ≡ k (m w).1) ⊎ (((m >> k) w).1 ≡ (m w).1)
  unfolding ◌>>◌
  >>-cases m k w = continue-cases (m w) k

  prefix-state : (prefix : String) (r : Outcome × World) → (with_prefix prefix r).1 ≡ r.1
  prefix-state prefix (done, w) = refl
  prefix-state prefix (failed e, w) = refl

  pub wrap-state : (prefix : String) (m : Run World) (w : World) → (wrap prefix m w).1 ≡ (m w).1
  unfolding wrap
  wrap-state prefix m w = prefix-state prefix (m w)

  prefix-done :
      (prefix : String) (r : Outcome × World)
      → (with_prefix prefix r).0 ≡ done
      → with_prefix prefix r ≡ r
  prefix-done prefix (done, w) h = refl
  prefix-done prefix (failed e, w) h = cc

  pub wrap-done :
      (prefix : String) (m : Run World) (w : World)
      → (wrap prefix m w).0 ≡ done
      → wrap prefix m w ≡ m w
  unfolding wrap
  wrap-done prefix m w = prefix-done prefix (m w)

  -- A first call with its prefix, what follows it, and both together.
  pub wrap->>-done :
      (prefix : String) (m k : Run World) (w : World)
      → ((wrap prefix m >> k) w).0 ≡ done
      → ((m w).0 ≡ done) × ((k (m w).1).0 ≡ done) × ((wrap prefix m >> k) w ≡ k (m w).1)
  wrap->>-done prefix m k w h =
      let first = >>-done (wrap prefix m) k w h in
      let same = wrap-done prefix m w first.0 in
      let whole = first.1 ∙ ap (λ r. k r.1) same in
      (sym (ap (λ r. r.0) same) ∙ first.0, sym (ap (λ r. r.0) whole) ∙ h, whole)

-- A sequence of calls that ends in the same way from every state, and one that ends without an error.
abbrev pub Ends : {World : Type 0} → Outcome → Run World → Type 0
Ends {World = World} o m = (w : World) → (m w).0 ≡ o

abbrev pub Succeeds : {World : Type 0} → Run World → Type 0
Succeeds m = Ends done m

module _ {World : Type 0} where
  continue-Succeeds :
      (r : Outcome × World) (k : Run World) (o : Outcome)
      → r.0 ≡ done
      → Ends o k
      → (continue r k).0 ≡ o
  continue-Succeeds (done, w) k o h next = next w
  continue-Succeeds (failed e, w) k o h next = cc

  pub Ends->> : (m k : Run World) (o : Outcome) → Succeeds m → Ends o k → Ends o (m >> k)
  unfolding ◌>>◌
  Ends->> m k o first next w = continue-Succeeds (m w) k o (first w) next

  pub Succeeds->> : (m k : Run World) → Succeeds m → Succeeds k → Succeeds (m >> k)
  Succeeds->> m k = Ends->> m k done

  continue-Ends :
      (r : Outcome × World) (k : Run World) (o : Outcome)
      → r.0 ≡ o
      → Succeeds k
      → (continue r k).0 ≡ o
  continue-Ends (done, w) k o h next = next w ∙ h
  continue-Ends (failed e, w) k o h next = h

  -- Calls that succeed do not change how the calls before them end.
  pub Ends-then : (m k : Run World) (o : Outcome) → Ends o m → Succeeds k → Ends o (m >> k)
  unfolding ◌>>◌
  Ends-then m k o first next w = continue-Ends (m w) k o (first w) next

  prefix-Succeeds :
      (prefix : String) (r : Outcome × World) → r.0 ≡ done → (with_prefix prefix r).0 ≡ done
  prefix-Succeeds prefix (done, w) h = refl
  prefix-Succeeds prefix (failed e, w) h = cc

  pub Succeeds-wrap : (prefix : String) (m : Run World) → Succeeds m → Succeeds (wrap prefix m)
  unfolding wrap
  Succeeds-wrap prefix m h w = prefix-Succeeds prefix (m w) (h w)

-- Get and Status().Update, for the objects that a reconciler is for.
pub record OwnerApi (Store Owner Status : Type 0) : Type 0 where
  pub get : String → String → Store → Fetched Owner
  pub update_status : Owner → Status → Store → Outcome × Store
