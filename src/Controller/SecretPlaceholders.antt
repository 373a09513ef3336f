-- ===== src/Controller/SecretPlaceholders.antt =====
-- Every secret of the control agent and of DHCP-DDNS reaches the configuration as the placeholder of a
-- variable of the container that holds that secret.
use kea_dhcp_operator.Controller.Agent.{agent_deployment_params}
use kea_dhcp_operator.Controller.Ddns.{ddns_deployment_params}
use kea_dhcp_operator.Resources.Deployment.{build_deployment, deployment_container}
use kea_dhcp_operator.Api.Workloads.{Deployment, Container}
use Prim.Native.Nat.{ℕ, zero, suc, ◌+◌, ◌<◌}
use mathlib.Core.Option.{some-injective}
use kea_dhcp_operator.Base.{
  String, false, ◌≡◌, ◌≢◌, ◌∙◌, ap, refl, ◌<>◌, none, some, List, [], ◌∷◌, map, ◌==◌, if◌then◌else◌,
  get_elem?, append_cancel_left, All, eq_iff, arith, inl, inr, Bool-cases, Option,
}
use kea_dhcp_operator.Base.Decimal.{decimal-injective}
use kea_dhcp_operator.Api.ControlAgent.{
  AuthClient, KeaControlAgentSpec, AuthConfig, KeaControlAgent,
}
use kea_dhcp_operator.Api.Ddns.{KeaDhcpDdnsSpec, TsigKey, KeaDhcpDdns}
use kea_dhcp_operator.Api.Kube.{EnvVar, EnvSource, secret_key_ref, SecretKeySelector}
use kea_dhcp_operator.Render.ControlAgent.{text_at}
use kea_dhcp_operator.Resources.Stork.{find_env}
use mathlib.Core.Option
use kea_dhcp_operator.Base.{append-nonempty, or_else-none}
use kea_dhcp_operator.Json.{text, get, get_laws, nonempty, nonempty-text}
use kea_dhcp_operator.Render.Ddns.{tsig_key_object}
use kea_dhcp_operator.Render.ControlAgent.{auth_client_object}
use kea_dhcp_operator.Api.Maps.{put}
use kea_dhcp_operator.Controller.Secrets.{
  Entry, env_name, secret_key_ref_env_var, placeholders_from, envs_from, tsig_entries, ddns_secrets,
  auth_entries, agent_secrets,
}

text_at-put :
    (key value other : String) (kvs : List (String × String))
    → text_at other (put key value kvs) ≡ (if key == other then value else text_at other kvs)
unfolding put text_at
text_at-put key value other [] = refl
text_at-put key value other ((k, v) ∷ kvs) =
    ground (arith, eq_iff k key, eq_iff k other, eq_iff key other, text_at-put key value other kvs)

env_name-distinct :
    (prefix : String) (i j : ℕ) → i ≢ j → (env_name prefix i == env_name prefix j) ≡ false
unfolding env_name
env_name-distinct prefix i j apart = elim (Bool-cases (env_name prefix i == env_name prefix j)) [
  | inl same ↦
      (let e = decimal-injective i j (append_cancel_left prefix _ _ ((eq_iff _ _).0 same)) in
        ground (arith, apart, e))
  | inr different ↦ different
]

-- No name stands twice.
abbrev pub HaveDistinctNames : List Entry → Type 0
HaveDistinctNames [] = Unit
HaveDistinctNames (e ∷ es) = All (λ (f : Entry). (f.0 == e.0) ≡ false) es × HaveDistinctNames es

module _ (prefix : String) where
  text_at-placeholders_other :
      (name : String) (i : ℕ) (es : List Entry) (kvs : List (String × String))
      → All (λ (f : Entry). (f.0 == name) ≡ false) es
      → text_at name (placeholders_from prefix i es kvs) ≡ text_at name kvs
  unfolding placeholders_from
  text_at-placeholders_other name i [] kvs h = refl
  text_at-placeholders_other name i ((n, none) ∷ es) kvs h =
      text_at-placeholders_other name (suc i) es kvs h.1
  text_at-placeholders_other name i ((n, some sel) ∷ es) kvs h =
      text_at-placeholders_other name (suc i) es _ h.1 ∙ text_at-put n _ name kvs ∙ rw h.0

  text_at-placeholders :
      (name : String) (sel : SecretKeySelector) (i m k : ℕ) (es : List Entry)
      (kvs : List (String × String))
      → HaveDistinctNames es
      → k ≡ i + m
      → get_elem? es m ≡ some (name, some sel)
      → text_at name (placeholders_from prefix i es kvs) ≡ "$" <> env_name prefix k
  unfolding placeholders_from
  text_at-placeholders name sel i m k [] kvs h e there = ground (arith, there)
  text_at-placeholders name sel i zero k ((n, none) ∷ es) kvs h e there =
      ground (arith, some-injective _ _ there)
  text_at-placeholders name sel i zero k ((n, some s) ∷ es) kvs h e there =
      let at_i : k ≡ i = omega (arith, e) in
      let this : n ≡ name = ap (λ (x : Entry). x.0) (some-injective _ _ there) in
      rw (at_i, ← this)
        (text_at-placeholders_other n (suc i) es _ h.0
          ∙ text_at-put n _ n kvs
          ∙ rw ((eq_iff n n).1 refl))
  text_at-placeholders name sel i (suc m) k ((n, none) ∷ es) kvs h e there =
      text_at-placeholders name sel (suc i) m k es kvs h.1 (omega (arith, e)) there
  text_at-placeholders name sel i (suc m) k ((n, some s) ∷ es) kvs h e there =
      text_at-placeholders name sel (suc i) m k es _ h.1 (omega (arith, e)) there

  find_env-envs_below :
      (k i : ℕ) (es : List Entry)
      → k < i
      → find_env (env_name prefix k) (envs_from prefix i es) ≡ none
  unfolding find_env envs_from
  find_env-envs_below k i [] h = refl
  find_env-envs_below k i ((n, none) ∷ es) h = find_env-envs_below k (suc i) es (omega (arith, h))
  find_env-envs_below k i ((n, some sel) ∷ es) h = rw (
    find_env-envs_below k (suc i) es (omega (arith, h)),
    env_name-distinct prefix i k (omega (arith, h)),
  )

  find_env-first :
      (name : String) (source : EnvSource) (vs : List EnvVar)
      → find_env name vs ≡ none
      → find_env name (record { name = name; source = source } ∷ vs) ≡ some source
  unfolding find_env
  find_env-first name source vs h = rw (h, (eq_iff name name).1 refl)

  find_env-here :
      (sel : SecretKeySelector) (i : ℕ) (es : List Entry)
      → find_env
          (env_name prefix i)
          ((secret_key_ref_env_var (env_name prefix i) sel).0 ∷ envs_from prefix (suc i) es)
        ≡ some (secret_key_ref sel)
  unfolding secret_key_ref_env_var
  find_env-here sel i es =
      find_env-first (env_name prefix i) (secret_key_ref sel) (envs_from prefix (suc i) es)
        (find_env-envs_below i (suc i) es (omega arith))

  find_env-later :
      (name : String) (source : EnvSource) (v : EnvVar) (vs : List EnvVar)
      → find_env name vs ≡ some source
      → find_env name (v ∷ vs) ≡ some source
  unfolding find_env
  find_env-later name source v vs h = rw h

  find_env-envs :
      (name : String) (sel : SecretKeySelector) (i m k : ℕ) (es : List Entry)
      → k ≡ i + m
      → get_elem? es m ≡ some (name, some sel)
      → find_env (env_name prefix k) (envs_from prefix i es) ≡ some (secret_key_ref sel)
  unfolding envs_from
  find_env-envs name sel i m k [] e there = ground (arith, there)
  find_env-envs name sel i zero k ((n, none) ∷ es) e there =
      ground (arith, some-injective _ _ there)
  find_env-envs name sel i zero k ((n, some s) ∷ es) e there =
      let at_i : k ≡ i = omega (arith, e) in
      let this : some s ≡ some sel = ap (λ (x : Entry). x.1) (some-injective _ _ there) in
      rw at_i (
        find_env-here s i es
        ∙ ap (λ (r : SecretKeySelector). some (secret_key_ref r)) (some-injective _ _ this))
  find_env-envs name sel i (suc m) k ((n, none) ∷ es) e there =
      find_env-envs name sel (suc i) m k es (omega (arith, e)) there
  find_env-envs name sel i (suc m) k ((n, some s) ∷ es) e there =
      find_env-later _ _ _ _ (find_env-envs name sel (suc i) m k es (omega (arith, e)) there)

get_elem?-map :
    {A B : Type 0} (f : A → B) (xs : List A) (k : ℕ)
    → get_elem? (map f xs) k ≡ Option.map f (get_elem? xs k)
get_elem?-map f [] k = refl
get_elem?-map f (x ∷ xs) zero = refl
get_elem?-map f (x ∷ xs) (suc k) = get_elem?-map f xs k

nonempty_placeholder : (name : String) → nonempty ("$" <> name) ≡ some (text ("$" <> name))
nonempty_placeholder name = nonempty-text ("$" <> name) (append-nonempty "$" name refl)

secret-tsig_key_object :
    (secrets : List (String × String)) (key : TsigKey)
    → get "secret" (tsig_key_object secrets key) ≡ nonempty (text_at key.name secrets)
unfolding tsig_key_object
secret-tsig_key_object secrets key = simp (get_laws, or_else-none)

password-auth_client_object :
    (passwords : List (String × String)) (c : AuthClient)
    → get "password" (auth_client_object passwords c) ≡ nonempty (text_at c.user passwords)
unfolding auth_client_object
password-auth_client_object passwords c = simp (get_laws, or_else-none)

-- What the first container of a Deployment has in a variable of its environment.
abbrev pub container_env : String → Deployment → Option (Option EnvSource)
container_env name d =
    Option.map (λ (c : Container). find_env name c.env)
      (get_elem? d.spec.template.spec.containers 0)

secret-placeholder :
    (spec : KeaDhcpDdnsSpec) (k : ℕ) (key : TsigKey) (sel : SecretKeySelector)
    → HaveDistinctNames (tsig_entries spec)
    → get_elem? spec.tsig_keys k ≡ some key
    → key.secret_ref ≡ some sel
    → (get "secret" (tsig_key_object (ddns_secrets spec).1.resolved_tsig_secrets key)
        ≡ some (text ("$" <> env_name "KEA_TSIG_SECRET_" k)))
      × (find_env (env_name "KEA_TSIG_SECRET_" k) (ddns_secrets spec).0 ≡ some (secret_key_ref sel))
unfolding ddns_secrets
secret-placeholder spec k key sel distinct there has =
    let entry : get_elem? (tsig_entries spec) k ≡ some (key.name, some sel) =
      get_elem?-map _ spec.tsig_keys k ∙ rw there (rw has) in
    (
      secret-tsig_key_object _ key
          ∙ ap nonempty (
              text_at-placeholders "KEA_TSIG_SECRET_" key.name sel 0 k k (tsig_entries spec) []
                distinct (omega arith) entry)
          ∙ nonempty_placeholder _,
      find_env-envs "KEA_TSIG_SECRET_" key.name sel 0 k k (tsig_entries spec) (omega arith) entry,
    )

-- The TSIG key of an index that has a Secret is rendered with a placeholder, and the container of the
-- Deployment that runs Kea has a variable of that name with the value of that Secret, if no name of a
-- key stands twice.
pub secret-ddns_secrets :
    (ddns : KeaDhcpDdns) (hash : String) (k : ℕ) (key : TsigKey) (sel : SecretKeySelector)
    → HaveDistinctNames (tsig_entries ddns.spec)
    → get_elem? ddns.spec.tsig_keys k ≡ some key
    → key.secret_ref ≡ some sel
    → (get "secret" (tsig_key_object (ddns_secrets ddns.spec).1.resolved_tsig_secrets key)
        ≡ some (text ("$" <> env_name "KEA_TSIG_SECRET_" k)))
      × (container_env
            (env_name "KEA_TSIG_SECRET_" k)
            (build_deployment (ddns_deployment_params ddns hash))
          ≡ some (some (secret_key_ref sel)))
unfolding build_deployment deployment_container ddns_deployment_params
secret-ddns_secrets ddns hash k key sel distinct there has =
    let rendered = secret-placeholder ddns.spec k key sel distinct there has in
    (rendered.0, ap (λ (s : Option EnvSource). some s) rendered.1)

password-placeholder :
    (spec : KeaControlAgentSpec) (auth : AuthConfig) (k : ℕ) (c : AuthClient)
    (sel : SecretKeySelector)
    → spec.authentication ≡ some auth
    → HaveDistinctNames (auth_entries spec)
    → get_elem? auth.clients k ≡ some c
    → c.password_secret_key_ref ≡ some sel
    → (get "password" (auth_client_object (agent_secrets spec).1.resolved_auth_passwords c)
        ≡ some (text ("$" <> env_name "KEA_AUTH_PASSWORD_" k)))
      × (find_env (env_name "KEA_AUTH_PASSWORD_" k) (agent_secrets spec).0
          ≡ some (secret_key_ref sel))
unfolding agent_secrets
password-placeholder spec auth k c sel on distinct there has =
    let entry : get_elem? (auth_entries spec) k ≡ some (c.user, some sel) =
      rw on (get_elem?-map _ auth.clients k ∙ rw there (rw has)) in
    (
      password-auth_client_object _ c
          ∙ ap nonempty (
              text_at-placeholders "KEA_AUTH_PASSWORD_" c.user sel 0 k k (auth_entries spec) []
                distinct (omega arith) entry)
          ∙ nonempty_placeholder _,
      find_env-envs "KEA_AUTH_PASSWORD_" c.user sel 0 k k (auth_entries spec) (omega arith) entry,
    )

-- The password of a client of the control agent that has a Secret is rendered with a placeholder,
-- and the container of the Deployment that runs the agent has a variable of that name with the value of
-- that Secret, if no user stands twice.
pub password-agent_secrets :
    (agent : KeaControlAgent) (hash : String) (auth : AuthConfig) (k : ℕ) (c : AuthClient)
    (sel : SecretKeySelector)
    → agent.spec.authentication ≡ some auth
    → HaveDistinctNames (auth_entries agent.spec)
    → get_elem? auth.clients k ≡ some c
    → c.password_secret_key_ref ≡ some sel
    → (get "password" (auth_client_object (agent_secrets agent.spec).1.resolved_auth_passwords c)
        ≡ some (text ("$" <> env_name "KEA_AUTH_PASSWORD_" k)))
      × (container_env
            (env_name "KEA_AUTH_PASSWORD_" k)
            (build_deployment (agent_deployment_params agent hash))
          ≡ some (some (secret_key_ref sel)))
unfolding build_deployment deployment_container agent_deployment_params
password-agent_secrets agent hash auth k c sel on distinct there has =
    let rendered = password-placeholder agent.spec auth k c sel on distinct there has in
    (rendered.0, ap (λ (s : Option EnvSource). some s) rendered.1)
