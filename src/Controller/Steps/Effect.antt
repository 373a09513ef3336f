-- ===== src/Controller/Steps/Effect.antt =====
-- What a step without an error has done.
use kea_dhcp_operator.Controller.Client.{wrap->>-done, wrap, wrap-done}
use kea_dhcp_operator.Controller.Steps.{own, on_objects, done, State, found}
use kea_dhcp_operator.Api.Kube.{ObjectMeta}
use kea_dhcp_operator.Controller.Objects.{
  Client, Resource, TakesEffect, reconcile_resource, key_of, written, apply_desired, key_string,
  set_reference,
}
use kea_dhcp_operator.Base.{◌≡◌, ◌∙◌, sym, ap, ◌<>◌, String}

module _ {Objects : Type 0} (client : Client Objects) {admitted : Resource → Resource}
    (law : TakesEffect client admitted) (owner : ObjectMeta) where
  pub get-reconcile_resource :
      (obj : Resource) (s : Objects)
      → (reconcile_resource client owner obj s).0 ≡ done
      → client.get (key_of obj) (reconcile_resource client owner obj s).1
        ≡ found (admitted (written (client.get (key_of obj) s) obj (apply_desired obj)))
  unfolding reconcile_resource
  get-reconcile_resource obj s h =
      let call = client.create_or_update obj (apply_desired obj) in
      let name = "reconciling  " <> key_string (key_of obj) in
      let set =
        wrap->>-done "setting controller reference" (set_reference client owner obj)
          (wrap name call) s h in
      let same = wrap-done name call s set.1 in
      let whole = set.2 ∙ same in
      rw whole
        (law.get-create_or_update obj (apply_desired obj) s (sym (ap (λ r. r.0) same) ∙ set.1))

  -- The live object after the step, of which the state before is the live object or none.
  pub get-own :
      {Owners : Type 0} (obj : Resource) (w : State Objects Owners)
      → (own client owner obj w).0 ≡ done
      → client.get (key_of obj) (own client owner obj w).1.objects
        ≡ found (admitted (written (client.get (key_of obj) w.objects) obj (apply_desired obj)))
  unfolding own on_objects
  get-own obj w h = get-reconcile_resource obj w.objects h

  pub get-wrap-own :
      {Owners : Type 0} (prefix : String) (obj : Resource) (w : State Objects Owners)
      → (wrap prefix (own client owner obj) w).0 ≡ done
      → client.get (key_of obj) (wrap prefix (own client owner obj) w).1.objects
        ≡ found (admitted (written (client.get (key_of obj) w.objects) obj (apply_desired obj)))
  get-wrap-own prefix obj w h =
      let same = wrap-done prefix (own client owner obj) w h in
      rw same (get-own obj w (sym (ap (λ r. r.0) same) ∙ h))
