-- ===== src/Schema/Ha.antt =====
-- The configuration of high availability is read back from its rendering by the JSON names that the
-- structs of api/v1alpha1/ha_types.go give their fields.
use kea_dhcp_operator.Base.{
  String, ◌≡◌, refl, Option, none, some, List, arith, or_else, or_else-none, ◌==◌, if◌then◌else◌,
  false, true, map, inl, inr, Bool-cases, is_some, ◌||◌, ◌>>=◌,
}
use kea_dhcp_operator.Json.{
  Json, text, number, boolean, object, Object, get, get_laws, read_laws, optional_text, optional,
  listed, required, as_text, as_number, as_boolean, any_of, is_end, set, set_if_not_nil,
  listed-any_of_strip, get-set,
}
use kea_dhcp_operator.Base.Int.{ℤ, pos, ltb_ℤ}
use kea_dhcp_operator.Api.Ha.{HaConfig, HaPeer, HaMultiThreading}
use kea_dhcp_operator.Render.Hooks.{
  ha_peer_object, ha_multi_threading_object, render_ha_multi_threading, server_name, set_listener,
  ha_config_object,
}

-- The address of a peer is not part of Kea's configuration.
abbrev pub without_address : HaPeer → HaPeer
without_address p = record p { address = "" }

unfoldable pub read_ha_peer : Json → Option HaPeer
read_ha_peer (object m) = do
  name ← required as_text (get "name" m)
  url ← optional_text (get "url" m)
  role ← required as_text (get "role" m)
  auto_failover ← optional as_boolean (get "auto-failover" m)
  some (record { name = name; url = url; role = role; address = ""; auto_failover = auto_failover })
read_ha_peer _ = none

pub read_ha_peer-ha_peer_object :
    (p : HaPeer) → read_ha_peer (object (ha_peer_object p)) ≡ some (without_address p)
unfolding read_ha_peer ha_peer_object
read_ha_peer-ha_peer_object p = simp (get_laws, read_laws)

read_ha_peer_list :
    (ps : List HaPeer)
    → listed read_ha_peer (any_of (λ p. object (ha_peer_object p)) ps)
      ≡ some (map without_address ps)
read_ha_peer_list =
    listed-any_of_strip read_ha_peer (λ p. object (ha_peer_object p)) without_address
      read_ha_peer-ha_peer_object

unfoldable pub read_ha_multi_threading : Json → Option HaMultiThreading
read_ha_multi_threading (object m) = do
  enable_multi_threading ← optional as_boolean (get "enable-multi-threading" m)
  http_client_threads ← optional as_number (get "http-client-threads" m)
  http_listener_threads ← optional as_number (get "http-listener-threads" m)
  some (record {
    enable_multi_threading = enable_multi_threading;
    http_client_threads = http_client_threads;
    http_listener_threads = http_listener_threads;
  })
read_ha_multi_threading _ = none

pub read_ha_multi_threading-object :
    (mt : HaMultiThreading)
    → read_ha_multi_threading (object (ha_multi_threading_object mt)) ≡ some mt
unfolding read_ha_multi_threading ha_multi_threading_object
read_ha_multi_threading-object mt = simp (get_laws, read_laws)

-- A multi-threading section sets something, or there is none.
abbrev pub HasHaSetting : Option HaMultiThreading → Type 0
HasHaSetting none = Unit
HasHaSetting (some mt) =
    (is_some mt.enable_multi_threading
      || (is_some mt.http_client_threads || is_some mt.http_listener_threads))
    ≡ true

is_end-ha_multi_threading_object :
    (mt : HaMultiThreading) → HasHaSetting (some mt) → is_end (ha_multi_threading_object mt) ≡ false
unfolding ha_multi_threading_object set_if_not_nil set
is_end-ha_multi_threading_object mt h = ground arith

pub read_ha_multi_threading-render_ha_multi_threading :
    (mt : Option HaMultiThreading)
    → HasHaSetting mt
    → optional read_ha_multi_threading (render_ha_multi_threading mt) ≡ some mt
unfolding render_ha_multi_threading optional
read_ha_multi_threading-render_ha_multi_threading none h = refl
read_ha_multi_threading-render_ha_multi_threading (some mt) h =
    rw (is_end-ha_multi_threading_object mt h) (rw (read_ha_multi_threading-object mt))

-- What the listener's assignments store, if they are made.
abbrev pub listening : ℤ → Json → Option Json
listening ha_listener_port v = if ltb_ℤ (pos 0) ha_listener_port then some v else none

get-set_listener :
    (j : String) (port : ℤ) (m : Object)
    → get j (set_listener port m) ≡ (
        if "http-listener-port" == j
        then or_else (listening port (number port)) (get j m)
        else if "http-listener-address" == j
        then or_else (listening port (text "0.0.0.0")) (get j m)
        else if "http-dedicated-listener" == j
        then or_else (listening port (boolean true)) (get j m)
        else get j m)
unfolding set_listener
get-set_listener j port m = elim (Bool-cases (ltb_ℤ (pos 0) port)) [
  | inl on ↦ rw on (simp get-set)
  | inr off ↦ rw off (ground arith)
]

unfoldable pub read_ha : Json → Option HaConfig
read_ha (object m) = do
  this_server_name ← required as_text (get "this-server-name" m)
  mode ← optional_text (get "mode" m)
  heartbeat_delay ← optional as_number (get "heartbeat-delay" m)
  max_response_delay ← optional as_number (get "max-response-delay" m)
  max_ack_delay ← optional as_number (get "max-ack-delay" m)
  max_unacked_clients ← optional as_number (get "max-unacked-clients" m)
  peers ← listed read_ha_peer (get "peers" m)
  send_lease_updates ← optional as_boolean (get "send-lease-updates" m)
  sync_leases ← optional as_boolean (get "sync-leases" m)
  sync_timeout ← optional as_number (get "sync-timeout" m)
  sync_page_limit ← optional as_number (get "sync-page-limit" m)
  delayed_updates_limit ← optional as_number (get "delayed-updates-limit" m)
  multi_threading ← optional read_ha_multi_threading (get "multi-threading" m)
  some (record {
    this_server_name = this_server_name;
    mode = mode;
    heartbeat_delay = heartbeat_delay;
    max_response_delay = max_response_delay;
    max_ack_delay = max_ack_delay;
    max_unacked_clients = max_unacked_clients;
    peers = peers;
    tls = none;
    send_lease_updates = send_lease_updates;
    sync_leases = sync_leases;
    sync_timeout = sync_timeout;
    sync_page_limit = sync_page_limit;
    delayed_updates_limit = delayed_updates_limit;
    multi_threading = multi_threading;
  })
read_ha _ = none

-- The configuration of high availability is read back from its rendering, with the server name of
-- the override, or of the spec if the override is empty, for a spec whose multi-threading section,
-- if it has one, sets something; the TLS Secret and the peers' addresses are not rendered.
pub read_ha-ha_config_object :
    (ha : HaConfig) (override : String) (port : ℤ)
    → HasHaSetting ha.multi_threading
    → read_ha (object (ha_config_object ha override port))
      ≡ some (record ha {
        this_server_name = if override == "" then ha.this_server_name else override;
        tls = none;
        peers = map without_address ha.peers;
      })
unfolding read_ha ha_config_object server_name
read_ha-ha_config_object ha override port h = simp (
  get_laws,
  read_laws,
  get-set_listener,
  read_ha_peer_list,
  read_ha_multi_threading-render_ha_multi_threading ha.multi_threading h,
)

-- A port above 0 opens the dedicated listener there, on every address; without one nothing of the
-- listener is set.
pub listener-ha_config_object :
    (ha : HaConfig) (override : String) (port : ℤ)
    → (get "http-listener-port" (ha_config_object ha override port) ≡ listening port (number port))
      × (get "http-listener-address" (ha_config_object ha override port)
          ≡ listening port (text "0.0.0.0"))
      × (get "http-dedicated-listener" (ha_config_object ha override port)
          ≡ listening port (boolean true))
unfolding ha_config_object
listener-ha_config_object ha override port = (
  simp (get_laws, get-set_listener, or_else-none),
  simp (get_laws, get-set_listener, or_else-none),
  simp (get_laws, get-set_listener, or_else-none),
)
