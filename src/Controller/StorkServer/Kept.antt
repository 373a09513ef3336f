-- ===== src/Controller/StorkServer/Kept.antt =====
-- The Secrets of the Stork server are generated once.
use kea_dhcp_operator.Resources.StorkServer.{
  build_stork_server_admin_secret, build_stork_server_token_secret,
}
use kea_dhcp_operator.Controller.Steps.Frame.{
  IsBeside, Spares, Spares-wrap, Spares-own, Avoids-reconcile_route, Spares-when_run,
  Spares-passed_over, Spares-on_objects, Spares-service_account_step,
}
use kea_dhcp_operator.Controller.StorkServer.{
  generated, secret_if_missing, secret_key, admin_secret_step, token_secret_step, stork_route_step,
  reconcile_stork_request, after_secrets, reconcile_stork, stork_fetched, ObjectMeta, Json,
  stork_admin_secret_name, stork_server_token_secret_name, DataObject, build_stork_server_route,
  KeaStorkServer, KeaStorkServerStatus, common_labels, build_stork_server_service,
}
use kea_dhcp_operator.Controller.Steps.{
  skip, reading, own, State, on_objects, when_run, passed_over, update_status, service_account_step,
}
use kea_dhcp_operator.Controller.Objects.{
  secret, secrets, deployment, service, config_map, stateful_set, service_account, pod_monitor,
  role_binding, route, Key, Client, Resource, TakesEffect, key_of, reconcile_route,
}
use kea_dhcp_operator.Controller.Client.{
  found, not_found, get_failed, ◌>>◌, >>-cases, Run, Fetched, wrap, wrap-state, OwnerApi,
}
use kea_dhcp_operator.Base.{
  String, refl, ok, error, inl, inr, ap, sym, ◌∙◌, ◌≢◌, ◌≡◌, Result, Bool, ◌<>◌,
}

beside_secrets : (k : Key) → k.kind ≡ secrets → (obj : Resource) → IsBeside obj → key_of obj ≢ k
beside_secrets k kind (config_map x) h e = absurd h
beside_secrets k kind (secret x) h e = absurd h
beside_secrets k kind (deployment x) h e = absurd h
beside_secrets k kind (stateful_set x) h e = absurd h
beside_secrets k kind (service x) h e = cc (kind, e)
beside_secrets k kind (service_account x) h e = cc (kind, e)
beside_secrets k kind (pod_monitor x) h e = cc (kind, e)
beside_secrets k kind (role_binding x) h e = cc (kind, e)
beside_secrets k kind (route x) h e = cc (kind, e)

module _ {Objects Owners : Type 0} (client : Client Objects) {admitted : Resource → Resource}
    (law : TakesEffect client admitted) (k : Key) (kind : k.kind ≡ secrets) (r : Resource) where
  -- A step after which a Secret that was there is there unchanged.
  abbrev Keeps : Run (State Objects Owners) → Type 0
  Keeps m =
      (w : State Objects Owners)
      → client.get k w.objects ≡ found r
      → client.get k (m w).1.objects ≡ found r

  Keeps->> : (m n : Run (State Objects Owners)) → Keeps m → Keeps n → Keeps (m >> n)
  Keeps->> m n hm hn w there = elim (>>-cases m n w) [
    | inl next ↦ rw next (hn (m w).1 (hm w there))
    | inr ended ↦ rw ended (hm w there)
  ]

  Keeps-Spares : (m : Run (State Objects Owners)) → Spares Owners client law k m → Keeps m
  Keeps-Spares m spares w there = (spares w).0 ∙ there

  module _ (owner : ObjectMeta) where
    generated-Keeps :
        (random : Result String) (generating reconciling : String) (build : String → DataObject)
        → ((chars : String) → key_of (secret (build chars)) ≢ k)
        → Keeps (generated client owner random generating reconciling build)
    generated-Keeps (ok chars) generating reconciling build other w there =
        ((Spares-wrap Owners client law k reconciling (own client owner (secret (build chars)))
            (Spares-own Owners client law k owner (secret (build chars)) (other chars)))
          w).0
        ∙ there
    generated-Keeps (error e) generating reconciling build other w there = there

    -- What is generated has another name than the Secret that is there, since it is missing.
    if_missing-Keeps :
        (x : Fetched Resource) (name fetching generating reconciling : String)
        (random : Result String) (build : String → DataObject) (w : State Objects Owners)
        → client.get (secret_key owner.namespace name) w.objects ≡ x
        → ((chars : String) → key_of (secret (build chars)) ≡ secret_key owner.namespace name)
        → client.get k w.objects ≡ found r
        → client.get k
            (secret_if_missing client owner x fetching
              (generated client owner random generating reconciling build)
              w).1.objects
          ≡ found r
    unfolding skip
    if_missing-Keeps (found y) name fetching generating reconciling random build w is named there =
        there
    if_missing-Keeps not_found name fetching generating reconciling random build w is named there =
        generated-Keeps random generating reconciling build
          (λ chars same.
            cc (ap (λ j. client.get j w.objects) (sym (named chars) ∙ same), is, there))
          w there
    if_missing-Keeps (get_failed e) name fetching generating reconciling random build w is named
          there =
        there

    Keeps-admin_secret_step :
        (random : Result String) → Keeps (admin_secret_step client owner random)
    unfolding admin_secret_step reading build_stork_server_admin_secret
    Keeps-admin_secret_step random w there =
        let name = stork_admin_secret_name owner.name in
        if_missing-Keeps (client.get (secret_key owner.namespace name) w.objects) name
          "fetching admin Secret" "generating admin password" "reconciling admin Secret" random
          (λ chars.
            build_stork_server_admin_secret owner.namespace name
              (common_labels owner.name "stork-server") (chars <> "!A"))
          w refl (λ chars. refl) there

    Keeps-token_secret_step :
        (random : Result String) → Keeps (token_secret_step client owner random)
    unfolding token_secret_step reading build_stork_server_token_secret
    Keeps-token_secret_step random w there =
        let name = stork_server_token_secret_name owner.name in
        if_missing-Keeps (client.get (secret_key owner.namespace name) w.objects) name
          "fetching server token Secret" "generating server token" "reconciling server token Secret"
          random
          (λ chars.
            build_stork_server_token_secret owner.namespace name
              (common_labels owner.name "stork-server") chars)
          w refl (λ chars. refl) there

    Keeps-wrap-own :
        (prefix : String) (obj : Resource)
        → key_of obj ≢ k
        → Keeps (wrap prefix (own client owner obj))
    Keeps-wrap-own prefix obj other = Keeps-Spares (wrap prefix (own client owner obj)) (
        Spares-wrap Owners client law k prefix (own client owner obj)
          (Spares-own Owners client law k owner obj other))

    Keeps-stork_route_step :
        (is_open_shift : Bool) → Keeps (stork_route_step client owner is_open_shift)
    unfolding stork_route_step
    Keeps-stork_route_step is_open_shift =
        let r = build_stork_server_route owner.namespace owner.name in
        let expose = on_objects (reconcile_route client owner r) in
        Keeps-Spares (when_run is_open_shift (passed_over expose)) (
          Spares-when_run Owners client law k is_open_shift (passed_over expose) (
            Spares-passed_over Owners client law k expose (
              Spares-on_objects Owners client law k (reconcile_route client owner r) (
                Avoids-reconcile_route client law k owner r (beside_secrets k kind (route r) tt)))))

  module _ (is_open_shift : Bool) (get_route : String → String → Objects → Fetched Json)
      (password_text token_text : Result String)
      (api : OwnerApi Owners KeaStorkServer KeaStorkServerStatus) (now : String) where
    Keeps-status :
        (server : KeaStorkServer) (st : KeaStorkServerStatus)
        → Keeps (wrap "updating status" (update_status api server st))
    unfolding update_status
    Keeps-status server st w there =
        rw (wrap-state "updating status" (update_status api server st) w) there

    Keeps-after_secrets :
        (server : KeaStorkServer)
        → Keeps
            (after_secrets client is_open_shift get_route password_text token_text api now server)
    unfolding after_secrets reading
    Keeps-after_secrets server = Keeps->> _ _ (Keeps-wrap-own server.meta _ _ (λ e. cc (kind, e))) (
        Keeps->> _ _
          (Keeps-wrap-own server.meta _ (service (build_stork_server_service _ _ _))
            (λ e. cc (kind, e)))
          (Keeps->> _ _ (Keeps-stork_route_step server.meta is_open_shift)
            (λ w there. Keeps-status server _ w there)))

    Keeps-reconcile_stork :
        (server : KeaStorkServer)
        → Keeps
            (reconcile_stork client is_open_shift get_route password_text token_text api now server)
    unfolding reconcile_stork
    Keeps-reconcile_stork server =
        Keeps->> _ _
          (Keeps-Spares (service_account_step client server.meta "stork-server") (
            Spares-service_account_step Owners client law k server.meta (beside_secrets k kind)
              "stork-server"))
          (Keeps->> _ _ (Keeps-admin_secret_step server.meta password_text) (
            Keeps->> _ _ (Keeps-token_secret_step server.meta token_text)
              (Keeps-after_secrets server)))

    stork_fetched-Keeps :
        (f : Fetched KeaStorkServer)
        → Keeps (stork_fetched client is_open_shift get_route password_text token_text api now f)
    stork_fetched-Keeps (found server) w there = Keeps-reconcile_stork server w there
    stork_fetched-Keeps not_found w there = there
    stork_fetched-Keeps (get_failed e) w there = there

    -- No reconciliation of a Stork server, however it ends, changes a Secret that is there: the password
    -- and the token are generated once.
    pub get-reconcile_stork_request :
        (namespace name : String) (w : State Objects Owners)
        → client.get k w.objects ≡ found r
        → client.get k
            (reconcile_stork_request client is_open_shift get_route password_text token_text api now
              namespace name w).1.objects
          ≡ found r
    unfolding reconcile_stork_request
    get-reconcile_stork_request namespace name w there =
        stork_fetched-Keeps (api.get namespace name w.owners) w there
