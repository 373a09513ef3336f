-- ===== src/Schema/AgentParts.antt =====
-- The control sockets and the authentication of the control agent are read back from their rendering.
use kea_dhcp_operator.Base.{
  String, true, not, is_empty, false, ◌≡◌, refl, Option, none, some, List, map, arith, is_some,
  ◌||◌, ◌>>=◌, ◌==◌,
}
use mathlib.Core.Option
use kea_dhcp_operator.Json.{
  Json, object, get, set, set_if_some, set_if_not_empty, set_if_any, get_laws, read_laws,
  optional_text, optional, listed, listed-any_of_strip, required, as_text, any_of, is_end,
}
use kea_dhcp_operator.Api.ControlAgent.{AgentControlSockets, AuthClient, AuthConfig}
use kea_dhcp_operator.Render.Parts.{render_control_socket}
use kea_dhcp_operator.Render.ControlAgent.{
  control_sockets_object, render_control_sockets, auth_client_object, auth_object,
  render_authentication,
}
use kea_dhcp_operator.Schema.Parts.{read_control_socket, read_control_socket-render_control_socket}

unfoldable pub read_control_sockets : Json → Option AgentControlSockets
read_control_sockets (object m) = do
  dhcp4 ← optional read_control_socket (get "dhcp4" m)
  dhcp6 ← optional read_control_socket (get "dhcp6" m)
  d2 ← optional read_control_socket (get "d2" m)
  some (record { dhcp4 = dhcp4; dhcp6 = dhcp6; d2 = d2 })
read_control_sockets _ = none

read_control_sockets-control_sockets_object :
    (cs : AgentControlSockets) → read_control_sockets (object (control_sockets_object cs)) ≡ some cs
unfolding read_control_sockets control_sockets_object
read_control_sockets-control_sockets_object cs =
    simp (get_laws, read_laws, read_control_socket-render_control_socket)

-- A section of control sockets has one, or there is no section.
abbrev pub HasSocket : Option AgentControlSockets → Type 0
HasSocket none = Unit
HasSocket (some cs) = (is_some cs.dhcp4 || (is_some cs.dhcp6 || is_some cs.d2)) ≡ true

is_end-control_sockets_object :
    (cs : AgentControlSockets) → HasSocket (some cs) → is_end (control_sockets_object cs) ≡ false
unfolding control_sockets_object set_if_some set render_control_socket
is_end-control_sockets_object cs h = ground arith

pub read_control_sockets-render_control_sockets :
    (o : Option AgentControlSockets)
    → HasSocket o
    → optional read_control_sockets (render_control_sockets o) ≡ some o
unfolding render_control_sockets optional
read_control_sockets-render_control_sockets none h = refl
read_control_sockets-render_control_sockets (some cs) h =
    rw (is_end-control_sockets_object cs h) (rw (read_control_sockets-control_sockets_object cs))

-- The names of Secrets are not part of Kea's configuration.
abbrev pub without_password : AuthClient → AuthClient
without_password c = record c { password_secret_key_ref = none }

abbrev pub without_credentials : AuthConfig → AuthConfig
without_credentials auth = record auth {
  clients = map without_password auth.clients;
  credentials_secret_ref = none;
}

unfoldable pub read_auth_client : Json → Option AuthClient
read_auth_client (object m) = do
  user ← required as_text (get "user" m)
  some (record { user = user; password_secret_key_ref = none })
read_auth_client _ = none

unfoldable pub read_auth : Json → Option AuthConfig
read_auth (object m) = do
  kind ← optional_text (get "type" m)
  realm ← optional_text (get "realm" m)
  clients ← listed read_auth_client (get "clients" m)
  some (record { kind = kind; realm = realm; clients = clients; credentials_secret_ref = none })
read_auth _ = none

-- An authentication section says something, or there is no section.
abbrev pub HasAuth : Option AuthConfig → Type 0
HasAuth none = Unit
HasAuth (some auth) =
    (not (auth.kind == "") || (not (auth.realm == "") || not (is_empty auth.clients))) ≡ true

module _ (passwords : List (String × String)) where
  read_auth_client-auth_client_object :
      (c : AuthClient)
      → read_auth_client (object (auth_client_object passwords c)) ≡ some (without_password c)
  unfolding read_auth_client auth_client_object
  read_auth_client-auth_client_object c = simp get_laws

  read_auth_client_list :
      (xs : List AuthClient)
      → listed read_auth_client (any_of (λ x. object (auth_client_object passwords x)) xs)
        ≡ some (map without_password xs)
  read_auth_client_list =
      listed-any_of_strip read_auth_client (λ x. object (auth_client_object passwords x))
        without_password read_auth_client-auth_client_object

  read_auth-auth_object :
      (auth : AuthConfig)
      → read_auth (object (auth_object passwords auth)) ≡ some (without_credentials auth)
  unfolding read_auth auth_object
  read_auth-auth_object auth = simp (get_laws, read_laws, read_auth_client_list)

  is_end-auth_object :
      (auth : AuthConfig) → HasAuth (some auth) → is_end (auth_object passwords auth) ≡ false
  unfolding auth_object set_if_not_empty set_if_any set
  is_end-auth_object auth h = ground arith

  pub read_auth-render_authentication :
      (o : Option AuthConfig)
      → HasAuth o
      → optional read_auth (render_authentication passwords o)
        ≡ some (Option.map without_credentials o)
  unfolding render_authentication optional
  read_auth-render_authentication none h = refl
  read_auth-render_authentication (some auth) h =
      rw (is_end-auth_object auth h) (rw (read_auth-auth_object auth))
