-- ===== src/Controller/Dhcp4/Credentials.antt =====
-- The credentials of databases: `dbCredentialEnvVars` of internal/controller/reconciler.go, and step 3
-- of `Reconcile` in keadhcp4server_controller.go. The configuration has placeholders, which the
-- container's environment resolves.
use Prim.Native.Nat.{ℕ, zero, suc}
use kea_dhcp_operator.Base.{String, ◌<>◌, Option, none, some, List, [], ◌∷◌, ◌++◌, set_elem}
use kea_dhcp_operator.Base.Decimal.{decimal}
use kea_dhcp_operator.Api.Kube.{EnvVar, secret_key_ref, LocalObjectReference}
use kea_dhcp_operator.Api.Common.{DatabaseConfig}
use kea_dhcp_operator.Api.Dhcp4.{KeaDhcp4ServerSpec}
use kea_dhcp_operator.Render.Dhcp4.{DbCredentials, no_credentials, Dhcp4ConfigRenderer}

unfoldable pub placeholders : String → DbCredentials
placeholders prefix = record {
  user = "$" <> (prefix <> "_USER");
  password = "$" <> (prefix <> "_PASSWORD");
}

unfoldable pub credential_envs : String → LocalObjectReference → List EnvVar
credential_envs prefix ref =
    record {
      name = prefix <> "_USER";
      source = secret_key_ref (record { name = ref.name; key = "username" });
    }
    ∷ record {
      name = prefix <> "_PASSWORD";
      source = secret_key_ref (record { name = ref.name; key = "password" });
    }
    ∷ []

-- `dbCredentialEnvVars` where the database has a Secret: the callers test that first.
unfoldable pub db_credential_env_vars :
    String → Option LocalObjectReference → List EnvVar × DbCredentials
unfolding credential_envs placeholders
db_credential_env_vars prefix none = ([], no_credentials)
db_credential_env_vars prefix (some ref) = (credential_envs prefix ref, placeholders prefix)

abbrev pub secret_of : Option DatabaseConfig → Option LocalObjectReference
secret_of none = none
secret_of (some db) = db.credentials_secret_ref

unfoldable pub hosts_prefix : ℕ → String
hosts_prefix i = "KEA_HOSTS_DBS_" <> decimal i

-- `for len(creds) < n { creds = append(creds, DBCredentials{}) }`
unfoldable pub pad_to : ℕ → List DbCredentials → List DbCredentials
pad_to zero cs = cs
pad_to (suc n) [] = no_credentials ∷ pad_to n []
pad_to (suc n) (c ∷ cs) = c ∷ pad_to n cs

-- The credentials after one pass of the loop.
unfoldable pub with_hosts_credentials :
    ℕ → Option LocalObjectReference → List DbCredentials → List DbCredentials
unfolding pad_to
with_hosts_credentials i none cs = cs
with_hosts_credentials i (some ref) cs =
    set_elem (pad_to (suc i) cs) i (placeholders (hosts_prefix i))

-- The loop over `HostsDatabases`, from an index on.
unfoldable pub hosts_credentials : ℕ → List DatabaseConfig → List DbCredentials → List DbCredentials
unfolding with_hosts_credentials
hosts_credentials i [] cs = cs
hosts_credentials i (db ∷ dbs) cs =
    hosts_credentials (suc i) dbs (with_hosts_credentials i db.credentials_secret_ref cs)

unfoldable pub hosts_envs : ℕ → List DatabaseConfig → List EnvVar
unfolding db_credential_env_vars
hosts_envs i [] = []
hosts_envs i (db ∷ dbs) =
    (db_credential_env_vars (hosts_prefix i) db.credentials_secret_ref).0 ++ hosts_envs (suc i) dbs

-- Step 3: the renderer with its placeholders, and the environment of the container.
unfoldable pub credentials : KeaDhcp4ServerSpec → List EnvVar × Dhcp4ConfigRenderer
unfolding db_credential_env_vars hosts_envs hosts_credentials
credentials spec = (
  lease.0 ++ (hosts.0 ++ hosts_envs 0 spec.hosts_databases),
  record {
    spec = spec;
    lease_db_creds = lease.1;
    hosts_db_creds = hosts.1;
    hosts_dbs_creds = hosts_credentials 0 spec.hosts_databases [];
  },
)
  where
    lease : List EnvVar × DbCredentials
    lease = db_credential_env_vars "KEA_LEASE_DB" (secret_of spec.lease_database)

    hosts : List EnvVar × DbCredentials
    hosts = db_credential_env_vars "KEA_HOSTS_DB" (secret_of spec.hosts_database)
