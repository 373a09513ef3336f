-- ===== src/Render/ControlAgent.antt =====
-- internal/kea/ctrl_agent_config.go: the configuration of the control agent, as the JSON value that is
-- printed. A nil map of resolved passwords gives what an empty one gives.
use kea_dhcp_operator.Base.{String, Option, none, some, List, [], ◌∷◌, ◌▸◌, ◌==◌, if◌then◌else◌}
use kea_dhcp_operator.Json.{
  Json, boolean, number, text, object, Object, end, set, set_if_some, set_if_not_nil,
  set_if_not_empty, set_if_any,
}
use kea_dhcp_operator.Api.Common.{TlsConfig}
use kea_dhcp_operator.Api.ControlAgent.{
  AgentControlSockets, AuthClient, AuthConfig, KeaControlAgentSpec,
}
use kea_dhcp_operator.Render.Hooks.{render_hooks_libraries, object_if_any}
use kea_dhcp_operator.Render.Parts.{render_control_socket, render_loggers}

-- `m[key]` of a map[string]string: a missing key gives the empty text.
unfoldable pub text_at : String → List (String × String) → String
text_at key [] = ""
text_at key ((k, v) ∷ kvs) = if k == key then v else text_at key kvs

pub record CtrlAgentConfigRenderer : Type 0 where
  pub spec : KeaControlAgentSpec
  pub resolved_auth_passwords : List (String × String)

unfoldable pub new_ctrl_agent_config_renderer : KeaControlAgentSpec → CtrlAgentConfigRenderer
new_ctrl_agent_config_renderer spec = record { spec = spec; resolved_auth_passwords = [] }

-- The paths of the certificates, if there is TLS.
unfoldable pub set_tls : Option TlsConfig → Object → Object
set_tls none m = m
set_tls (some tls) m =
    m
    ▸ set "trust-anchor" (text "/etc/kea/tls/ca.crt")
    ▸ set "cert-file" (text "/etc/kea/tls/tls.crt")
    ▸ set "key-file" (text "/etc/kea/tls/tls.key")
    ▸ set_if_not_nil "cert-required" boolean tls.cert_required

unfoldable pub control_sockets_object : AgentControlSockets → Object
control_sockets_object cs =
    end
    ▸ set_if_some "dhcp4" (render_control_socket cs.dhcp4)
    ▸ set_if_some "dhcp6" (render_control_socket cs.dhcp6)
    ▸ set_if_some "d2" (render_control_socket cs.d2)

unfoldable pub render_control_sockets : Option AgentControlSockets → Option Json
render_control_sockets none = none
render_control_sockets (some cs) = object_if_any (control_sockets_object cs)

module _ (passwords : List (String × String)) where
  unfoldable pub auth_client_object : AuthClient → Object
  auth_client_object c =
      end ▸ set "user" (text c.user) ▸ set_if_not_empty "password" (text_at c.user passwords)

  unfoldable pub auth_object : AuthConfig → Object
  auth_object auth =
      end
      ▸ set_if_not_empty "type" auth.kind
      ▸ set_if_not_empty "realm" auth.realm
      ▸ set_if_any "clients" (λ c. object (auth_client_object c)) auth.clients

  unfoldable pub render_authentication : Option AuthConfig → Option Json
  render_authentication none = none
  render_authentication (some auth) = object_if_any (auth_object auth)

module _ (unmarshal : String → Option Json) where
  -- The map under "Control-agent".
  unfoldable pub agent_object : CtrlAgentConfigRenderer → Object
  agent_object r =
      end
      ▸ set_if_not_empty "http-host" s.http_host
      ▸ set_if_not_nil "http-port" number s.http_port
      ▸ set_tls s.tls
      ▸ set_if_some "control-sockets" (render_control_sockets s.control_sockets)
      ▸ set_if_some "authentication"
          (render_authentication r.resolved_auth_passwords s.authentication)
      ▸ set_if_any "hooks-libraries" object (render_hooks_libraries unmarshal s.hooks_libraries)
      ▸ set_if_some "loggers" (render_loggers s.loggers)
    where
      open r use {spec as s}

  -- `RenderJSON`.
  unfoldable pub render_agent_json : CtrlAgentConfigRenderer → Json
  render_agent_json r = object (set "Control-agent" (object (agent_object r)) end)
