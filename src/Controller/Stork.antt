-- ===== src/Controller/Stork.antt =====
-- The Stork agent of a server: `resolveSecretValue`, `resolveStorkServer` and `storkServerInfoFromCR` of
-- internal/controller/reconciler.go, and `resolveDhcp4StorkAgent` of keadhcp4server_controller.go. What
-- the client answers, a Secret's data or a Stork server, is an argument. Logs are left out.
use kea_dhcp_operator.Base.{
  Result, ok, error, String, true, false, ◌≡◌, ◌<>◌, Option, none, some, List, [], ◌∷◌, ◌==◌, not,
  if◌then◌else◌, get_or,
}
use kea_dhcp_operator.Base.Int.{pos}
use kea_dhcp_operator.Base.Decimal.{decimal_ℤ}
use kea_dhcp_operator.Api.Kube.{LocalObjectReference}
use kea_dhcp_operator.Api.Common.{StorkAgentConfig}
use kea_dhcp_operator.Api.Maps.{StringMap, data_at}
use kea_dhcp_operator.Api.Stork.{KeaStorkServer}
use kea_dhcp_operator.Controller.Client.{Fetched, found, not_found, get_failed}
use kea_dhcp_operator.Resources.Names.{service_name, stork_server_token_secret_name}
use kea_dhcp_operator.Resources.Stork.{StorkSidecarParams, resolve_stork_params, sidecar_params}

-- The data of a Secret.
abbrev pub SecretData : Type 0
SecretData = StringMap

abbrev value_or_error : String → String → Option String → Result String
value_or_error name key none =
    error ("key \"" <> key <> "\" not found in secret \"" <> name <> "\"")
value_or_error name key (some v) = ok v

abbrev secret_value : String → String → String → Fetched SecretData → Result String
secret_value namespace name key (found d) = value_or_error name key (data_at key d)
secret_value namespace name key not_found =
    error ("secret \"" <> name <> "\" not found in namespace \"" <> namespace <> "\"")
secret_value namespace name key (get_failed e) = error ("fetching secret \"" <> name <> "\": " <> e)

module _ (get_secret : String → String → Fetched SecretData) where
  unfoldable pub resolve_secret_value :
      String → Option LocalObjectReference → String → Result String
  resolve_secret_value namespace none key = error "secret reference is nil"
  resolve_secret_value namespace (some ref) key =
      secret_value namespace ref.name key (get_secret namespace ref.name)

pub record StorkServerInfo : Type 0 where
  pub server_url : String
  pub token_secret_name : String

unfoldable pub stork_server_info_from_cr : KeaStorkServer → StorkServerInfo
stork_server_info_from_cr server = record {
  server_url =
      "http://"
      <> (service_name server.meta.name "stork-server"
          <> ("."
              <> (server.meta.namespace
                  <> (".svc.cluster.local:" <> decimal_ℤ (get_or server.spec.port (pos 8080))))));
  token_secret_name = stork_server_token_secret_name server.meta.name;
}

abbrev pub info_of : Fetched KeaStorkServer → Option StorkServerInfo
info_of (found server) = some (stork_server_info_from_cr server)
info_of not_found = none
info_of (get_failed e) = none

abbrev pub info_of_first : Option (List KeaStorkServer) → Option StorkServerInfo
info_of_first none = none
info_of_first (some []) = none
info_of_first (some (server ∷ servers)) = some (stork_server_info_from_cr server)

module _ (get_stork : String → String → Fetched KeaStorkServer)
    (list_storks : String → Option (List KeaStorkServer)) where
  -- A reference names the server; without one the first of the namespace is taken.
  unfoldable pub resolve_stork_server :
      String → Option LocalObjectReference → Option StorkServerInfo
  resolve_stork_server namespace (some ref) = info_of (get_stork namespace ref.name)
  resolve_stork_server namespace none = info_of_first (list_storks namespace)

  abbrev with_info : StorkAgentConfig → Option StorkServerInfo → StorkAgentConfig
  with_info cfg none = cfg
  with_info cfg (some info) = record cfg {
    server_url = info.server_url;
    server_token_secret_ref = some (record { name = info.token_secret_name });
  }

  -- An explicit URL is kept; without one a Stork server is looked for.
  unfoldable pub discover : String → StorkAgentConfig → StorkAgentConfig
  unfolding resolve_stork_server
  discover namespace cfg =
      if cfg.server_url == ""
      then with_info cfg (resolve_stork_server namespace cfg.stork_server_ref)
      else cfg

  module _ (get_secret : String → String → Fetched SecretData) where
    abbrev value_or_empty : Result String → String
    value_or_empty (ok v) = v
    value_or_empty (error e) = ""

    -- The token, or the empty text if there is no reference or if it cannot be resolved.
    unfoldable pub token_of : String → Option LocalObjectReference → String
    unfolding resolve_secret_value
    token_of namespace none = ""
    token_of namespace (some ref) =
        value_or_empty (resolve_secret_value get_secret namespace (some ref) "token")

    abbrev agent_of : String → StorkAgentConfig → Option StorkSidecarParams
    agent_of namespace cfg =
        resolve_stork_params (some cfg) (token_of namespace cfg.server_token_secret_ref)

    unfoldable pub resolve_stork_agent :
        String → Option StorkAgentConfig → Option StorkSidecarParams
    unfolding discover token_of
    resolve_stork_agent namespace none = none
    resolve_stork_agent namespace (some cfg) =
        if not cfg.enabled then none else agent_of namespace (discover namespace cfg)

    -- Of the server that is found the URL and the name of the Secret are taken.
    pub resolve_stork_agent-info :
        (namespace token : String) (cfg : StorkAgentConfig) (info : StorkServerInfo)
        (d : SecretData)
        → cfg.enabled ≡ true
        → (cfg.server_url == "") ≡ true
        → resolve_stork_server namespace cfg.stork_server_ref ≡ some info
        → get_secret namespace info.token_secret_name ≡ found d
        → data_at "token" d ≡ some token
        → resolve_stork_agent namespace (some cfg)
          ≡ some (record (sidecar_params cfg token) { server_url = info.server_url })
    unfolding resolve_stork_agent discover token_of resolve_secret_value resolve_stork_params
        sidecar_params
    resolve_stork_agent-info namespace token cfg info d on no_url there secret value =
        rw (on, no_url, there, secret, value)

    -- An enabled agent with an explicit URL keeps it, whatever Stork servers there are, and a token
    -- that cannot be resolved is an empty one.
    pub resolve_stork_agent-explicit :
        (namespace : String) (cfg : StorkAgentConfig)
        → cfg.enabled ≡ true
        → (cfg.server_url == "") ≡ false
        → resolve_stork_agent namespace (some cfg)
          ≡ some (sidecar_params cfg (token_of namespace cfg.server_token_secret_ref))
    unfolding resolve_stork_agent discover resolve_stork_params
    resolve_stork_agent-explicit namespace cfg on url = rw (on, url)
