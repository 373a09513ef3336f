-- ===== src/Controller/Steps/Closing.antt =====
-- The last steps of a reconciliation: what follows the workload, and the status.
use kea_dhcp_operator.Controller.Steps.Frame.{Spares, Spares->>}
use kea_dhcp_operator.Controller.Objects.{TakesEffect, Key, Kind}
use kea_dhcp_operator.Controller.Steps.{
  State, update_status, reading, Client, Resource, ready_replicas, ObjectMeta, ready_or_zero,
}
use kea_dhcp_operator.Base.{◌≡◌, ◌∙◌, sym, ap, refl, ℕ, String}
use kea_dhcp_operator.Controller.Client.{
  ◌>>◌, done, OwnerApi, Run, wrap, wrap-done, >>-next, >>-assoc, Fetched, found, get_failed,
  not_found,
}

-- The number of ready replicas that a look at a workload yields.
abbrev pub counted : Fetched ℕ → ℕ
counted (found n) = n
counted not_found = 0
counted (get_failed e) = 0

counted-lem : (x : Fetched ℕ) → ready_or_zero x ≡ counted x
counted-lem (found n) = refl
counted-lem not_found = refl
counted-lem (get_failed e) = refl

pub ready_replicas_lem :
    {Objects Owners : Type 0} (client : Client Objects) (owner : ObjectMeta) (kind : Kind)
    (name : String) (w : State Objects Owners)
    → ready_replicas client owner kind name w
      ≡ counted (
          client.ready_replicas
            (record { kind = kind; namespace = owner.namespace; name = name })
            w.objects)
unfolding ready_replicas
ready_replicas_lem client owner kind name w = counted-lem (
    client.ready_replicas (record { kind = kind; namespace = owner.namespace; name = name })
      w.objects)

-- It depends on the objects alone.
pub ready_replicas-same :
    {Objects Owners : Type 0} (client : Client Objects) (owner : ObjectMeta) (kind : Kind)
    (name : String) (w1 w2 : State Objects Owners)
    → w1.objects ≡ w2.objects
    → ready_replicas client owner kind name w1 ≡ ready_replicas client owner kind name w2
unfolding ready_replicas
ready_replicas-same client owner kind name w1 w2 e =
    ap
      (λ s. ready_or_zero (
        client.ready_replicas (record { kind = kind; namespace = owner.namespace; name = name }) s))
      e

module _ {Objects Owners Owner Status : Type 0} (api : OwnerApi Owners Owner Status)
    (owner : Owner) where
  pub status-stored :
      (st : Status) (w : State Objects Owners)
      → (wrap "updating status" (update_status api owner st) w).0 ≡ done
      → let w' = (wrap "updating status" (update_status api owner st) w).1 in
        (w'.objects ≡ w.objects) × (api.update_status owner st w.owners ≡ (done, w'.owners))
  unfolding update_status
  status-stored st w h =
      let same = wrap-done "updating status" (update_status api owner st) w h in
      let stored = sym (ap (λ r. r.0) same) ∙ h in
      rw same (refl, ap (λ o. (o, (update_status api owner st w).1.owners)) stored)

  module _ (r : State Objects Owners → ℕ) (st : ℕ → Status) where
    abbrev pub store : Run (State Objects Owners)
    store = reading r (λ ready. wrap "updating status" (update_status api owner (st ready)))

    -- A step and the status: what is stored is that of the ready replicas after the step.
    store-done :
        (m : Run (State Objects Owners)) (w : State Objects Owners)
        → ((m >> store) w).0 ≡ done
        → let before = (m w).1 in
          let w' = ((m >> store) w).1 in
          (w'.objects ≡ before.objects)
          × (api.update_status owner (st (r before)) before.owners ≡ (done, w'.owners))
    unfolding reading
    store-done m w h =
        let s1 = >>-next m store w h in rw s1.2 (status-stored (st (r (m w).1)) (m w).1 s1.1)

    module _ (client : Client Objects) {admitted : Resource → Resource}
        (law : TakesEffect client admitted) (k : Key) (m : Run (State Objects Owners))
        (spares : Spares Owners client law k m) where
      -- An object that the step spares is there as before.
      pub get-store :
          (w : State Objects Owners)
          → ((m >> store) w).0 ≡ done
          → client.get k ((m >> store) w).1.objects ≡ client.get k w.objects
      get-store w h = ap (λ s. client.get k s) (store-done m w h).0 ∙ (spares w).0

      -- The status that is stored, of the resources as they were.
      pub stored-store :
          ((w1 w2 : State Objects Owners) → w1.objects ≡ w2.objects → r w1 ≡ r w2)
          → (w : State Objects Owners) → ((m >> store) w).0 ≡ done
          → api.update_status owner (st (r ((m >> store) w).1)) w.owners
            ≡ (done, ((m >> store) w).1.owners)
      stored-store same w h =
          ap (λ n. api.update_status owner (st n) w.owners)
            (same ((m >> store) w).1 (m w).1 (store-done m w h).0)
          ∙ ap (λ o. api.update_status owner (st (r (m w).1)) o) (sym (spares w).1)
          ∙ (store-done m w h).1

    -- The same of two steps.
    module _ (client : Client Objects) {admitted : Resource → Resource}
        (law : TakesEffect client admitted) (k : Key) (m n : Run (State Objects Owners))
        (spares_m : Spares Owners client law k m) (spares_n : Spares Owners client law k n) where
      pub get-store_two :
          (w : State Objects Owners)
          → ((m >> n >> store) w).0 ≡ done
          → client.get k ((m >> n >> store) w).1.objects ≡ client.get k w.objects
      get-store_two w h =
          let same = >>-assoc m n store w in
          rw same (
            get-store client law k (m >> n) (Spares->> Owners client law k m n spares_m spares_n) w
              (sym (ap (λ x. x.0) same) ∙ h))

      pub stored-store_two :
          ((w1 w2 : State Objects Owners) → w1.objects ≡ w2.objects → r w1 ≡ r w2)
          → (w : State Objects Owners) → ((m >> n >> store) w).0 ≡ done
          → api.update_status owner (st (r ((m >> n >> store) w).1)) w.owners
            ≡ (done, ((m >> n >> store) w).1.owners)
      stored-store_two reads w h =
          let same = >>-assoc m n store w in
          rw same (
            stored-store client law k (m >> n) (Spares->> Owners client law k m n spares_m spares_n)
              reads w (sym (ap (λ x. x.0) same) ∙ h))
