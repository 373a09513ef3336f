-- ===== src/Schema/ControlAgent.antt =====
-- The control agent's configuration is read back from its rendering by the JSON names that the structs
-- of api/v1alpha1/keacontrolagent_types.go give their fields.
use kea_dhcp_operator.Base.{
  String, Bool, ◌≡◌, refl, Option, none, some, [], arith, ◌>>=◌, or_else, if◌then◌else◌, ◌==◌,
}
use mathlib.Core.Option
use kea_dhcp_operator.Json.{
  optional-boolean, Json, object, Object, text, get, get_laws, read_laws, optional_text, optional,
  listed, required, as_number, as_boolean, pointed, boolean,
}
use kea_dhcp_operator.Api.Common.{TlsConfig}
use kea_dhcp_operator.Api.ControlAgent.{KeaControlAgentSpec}
use kea_dhcp_operator.Render.ControlAgent.{
  CtrlAgentConfigRenderer, set_tls, agent_object, render_agent_json,
}
use kea_dhcp_operator.Schema.Dhcp4.{no_container, as_root}
use kea_dhcp_operator.Schema.Parts.{read_logger, read_logger-render_loggers}
use kea_dhcp_operator.Schema.AgentParts.{
  read_control_sockets, HasSocket, read_control_sockets-render_control_sockets, without_credentials,
  read_auth, HasAuth, read_auth-render_authentication,
}

-- What is read of TLS: that there are certificates, and whether the client must have one.
abbrev pub tls_read : Option TlsConfig → Option TlsConfig
tls_read = Option.map (λ (tls : TlsConfig). record tls { secret_ref = record { name = "" } })

abbrev tls_of : Option Json → Option Bool → Option TlsConfig
tls_of none cert_required = none
tls_of (some v) cert_required =
    some (record { secret_ref = record { name = "" }; cert_required = cert_required })

abbrev certificate : String → Option TlsConfig → Option Json
certificate path none = none
certificate path (some tls) = some (text path)

abbrev cert_required_of : Option TlsConfig → Option Json
cert_required_of none = none
cert_required_of (some tls) = pointed boolean tls.cert_required

-- What the file assignments leave at a key.
abbrev with_certificates : String → Option TlsConfig → Object → Option Json
with_certificates j tls m =
    if "key-file" == j
    then or_else (certificate "/etc/kea/tls/tls.key" tls) (get j m)
    else if "cert-file" == j
    then or_else (certificate "/etc/kea/tls/tls.crt" tls) (get j m)
    else if "trust-anchor" == j
    then or_else (certificate "/etc/kea/tls/ca.crt" tls) (get j m)
    else get j m

get-set_tls :
    (j : String) (tls : Option TlsConfig) (m : Object)
    → get j (set_tls tls m) ≡ (
        if "cert-required" == j
        then or_else (cert_required_of tls) (with_certificates j tls m)
        else with_certificates j tls m)
unfolding set_tls
get-set_tls j none m = ground arith
get-set_tls j (some tls) m = simp get_laws

-- What of a spec is Kea's configuration, but for the hook libraries.
abbrev pub agent_part : KeaControlAgentSpec → KeaControlAgentSpec
agent_part s = record s {
  container = no_container;
  replicas = none;
  placement = none;
  tls = tls_read s.tls;
  authentication = Option.map without_credentials s.authentication;
  hooks_libraries = [];
}

unfoldable pub read_agent : Json → Option KeaControlAgentSpec
read_agent (object m) = do
  http_host ← optional_text (get "http-host" m)
  http_port ← optional as_number (get "http-port" m)
  cert_required ← optional as_boolean (get "cert-required" m)
  control_sockets ← optional read_control_sockets (get "control-sockets" m)
  authentication ← optional read_auth (get "authentication" m)
  loggers ← listed read_logger (get "loggers" m)
  some (record {
    container = no_container;
    replicas = none;
    placement = none;
    http_host = http_host;
    http_port = http_port;
    tls = tls_of (get "trust-anchor" m) cert_required;
    control_sockets = control_sockets;
    authentication = authentication;
    hooks_libraries = [];
    loggers = loggers;
  })
read_agent _ = none

-- The configuration under the key "Control-agent" of the root.
unfoldable pub read_agent_root : Json → Option KeaControlAgentSpec
read_agent_root v = required read_agent (as_root "Control-agent" v)

abbrev cert_required_in : Option TlsConfig → Option Bool
cert_required_in none = none
cert_required_in (some tls) = tls.cert_required

read_cert_required :
    (tls : Option TlsConfig)
    → optional as_boolean (cert_required_of tls) ≡ some (cert_required_in tls)
read_cert_required none = unfold optional in refl
read_cert_required (some tls) = optional-boolean tls.cert_required

tls_of-certificate :
    (path : String) (tls : Option TlsConfig)
    → tls_of (certificate path tls) (cert_required_in tls) ≡ tls_read tls
tls_of-certificate path none = refl
tls_of-certificate path (some tls) = refl

module _ (unmarshal : String → Option Json) where
  read_agent-agent_object :
      (r : CtrlAgentConfigRenderer)
      → HasSocket r.spec.control_sockets
      → HasAuth r.spec.authentication
      → read_agent (object (agent_object unmarshal r)) ≡ some (agent_part r.spec)
  unfolding read_agent agent_object
  read_agent-agent_object r hs ha = simp (
    get_laws,
    read_laws,
    get-set_tls,
    read_control_sockets-render_control_sockets r.spec.control_sockets hs,
    read_auth-render_authentication r.resolved_auth_passwords r.spec.authentication ha,
    read_logger-render_loggers,
    read_cert_required,
    tls_of-certificate,
  )

  -- Whatever the resolved passwords and the hooks, the control agent's configuration that is rendered
  -- reads back, by the JSON names of the API structs, as the Kea part of the spec it was made from, if
  -- the section of control sockets has one and the section of authentication says something. Of TLS
  -- it has that there are certificates, and whether a client must have one; the Secret with credentials
  -- that authentication may name is not in it, since the code does not read it.
  pub read_agent-render_agent_json :
      (r : CtrlAgentConfigRenderer)
      → HasSocket r.spec.control_sockets
      → HasAuth r.spec.authentication
      → read_agent_root (render_agent_json unmarshal r) ≡ some (agent_part r.spec)
  unfolding read_agent_root render_agent_json
  read_agent-render_agent_json r hs ha = simp get_laws (read_agent-agent_object r hs ha)
