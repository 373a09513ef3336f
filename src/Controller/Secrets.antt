-- ===== src/Controller/Secrets.antt =====
-- The secrets of the control agent and of DHCP-DDNS: step 2 of `Reconcile` in
-- internal/controller/keacontrolagent_controller.go and keadhcpddns_controller.go, and
-- `secretKeyRefEnvVar` of reconciler.go. The two loops are one, over names with their Secrets.
use Prim.Native.Nat.{ℕ, suc}
use kea_dhcp_operator.Base.{String, ◌<>◌, Option, none, some, List, [], ◌∷◌, map}
use kea_dhcp_operator.Base.Decimal.{decimal}
use kea_dhcp_operator.Api.ControlAgent.{AuthClient, KeaControlAgentSpec, AuthConfig}
use kea_dhcp_operator.Api.Ddns.{KeaDhcpDdnsSpec, TsigKey}
use kea_dhcp_operator.Api.Maps.{put}
use kea_dhcp_operator.Api.Kube.{EnvVar, secret_key_ref, SecretKeySelector}
use kea_dhcp_operator.Render.ControlAgent.{CtrlAgentConfigRenderer}
use kea_dhcp_operator.Render.Ddns.{DdnsConfigRenderer}

abbrev pub Entry : Type 0
Entry = String × Option SecretKeySelector

-- The name of the variable of an index, after the prefix of the loop.
unfoldable pub env_name : String → ℕ → String
env_name prefix i = prefix <> decimal i

unfoldable pub secret_key_ref_env_var : String → SecretKeySelector → EnvVar × String
secret_key_ref_env_var name sel = (record { name = name; source = secret_key_ref sel }, "$" <> name)

module _ (prefix : String) where
  -- `placeholders` after the loop, from an index on.
  unfoldable pub placeholders_from :
      ℕ → List Entry → List (String × String) → List (String × String)
  unfolding secret_key_ref_env_var
  placeholders_from i [] kvs = kvs
  placeholders_from i ((name, none) ∷ es) kvs = placeholders_from (suc i) es kvs
  placeholders_from i ((name, some sel) ∷ es) kvs =
      placeholders_from (suc i) es (put name (secret_key_ref_env_var (env_name prefix i) sel).1 kvs)

  -- `secretEnvVars` after the loop, from an index on.
  unfoldable pub envs_from : ℕ → List Entry → List EnvVar
  unfolding secret_key_ref_env_var
  envs_from i [] = []
  envs_from i ((name, none) ∷ es) = envs_from (suc i) es
  envs_from i ((name, some sel) ∷ es) =
      (secret_key_ref_env_var (env_name prefix i) sel).0 ∷ envs_from (suc i) es

abbrev pub tsig_entries : KeaDhcpDdnsSpec → List Entry
tsig_entries spec = map (λ (k : TsigKey). (k.name, k.secret_ref)) spec.tsig_keys

-- Step 2 for DHCP-DDNS.
unfoldable pub ddns_secrets : KeaDhcpDdnsSpec → List EnvVar × DdnsConfigRenderer
unfolding placeholders_from envs_from
ddns_secrets spec = (
  envs_from "KEA_TSIG_SECRET_" 0 (tsig_entries spec),
  record {
    spec = spec;
    resolved_tsig_secrets = placeholders_from "KEA_TSIG_SECRET_" 0 (tsig_entries spec) [];
  },
)

abbrev auth_entries_of : Option AuthConfig → List Entry
auth_entries_of none = []
auth_entries_of (some auth) =
    map (λ (c : AuthClient). (c.user, c.password_secret_key_ref)) auth.clients

abbrev pub auth_entries : KeaControlAgentSpec → List Entry
auth_entries spec = auth_entries_of spec.authentication

-- Step 2 for the control agent.
unfoldable pub agent_secrets : KeaControlAgentSpec → List EnvVar × CtrlAgentConfigRenderer
unfolding placeholders_from envs_from
agent_secrets spec = (
  envs_from "KEA_AUTH_PASSWORD_" 0 (auth_entries spec),
  record {
    spec = spec;
    resolved_auth_passwords = placeholders_from "KEA_AUTH_PASSWORD_" 0 (auth_entries spec) [];
  },
)
