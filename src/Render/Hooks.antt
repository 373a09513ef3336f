-- ===== src/Render/Hooks.antt =====
-- internal/kea/config.go and internal/kea/ha_config.go: the hook libraries. json.Unmarshal, which
-- reads the parameters of a hook, is a parameter.
use kea_dhcp_operator.Base.{
  String, Option, none, some, List, [], ◌∷◌, map, ◌==◌, ◌▸◌, if◌then◌else◌, true,
}
use kea_dhcp_operator.Base.Int.{ℤ, pos, ltb_ℤ}
use kea_dhcp_operator.Json.{
  Json, boolean, number, text, array, object, Object, end, nil, cons, set, set_if_some,
  set_if_not_nil, set_if_not_empty, set_if_any, is_end,
}
use kea_dhcp_operator.Api.Kube.{RawJson}
use kea_dhcp_operator.Api.Common.{DatabaseConfig, HookLibrary}
use kea_dhcp_operator.Api.Ha.{HaConfig, HaPeer, HaMultiThreading}

abbrev pub ha_hook_lib : String
ha_hook_lib = "/usr/lib/kea/hooks/libdhcp_ha.so"

abbrev pub lease_cmds_hook_lib : String
lease_cmds_hook_lib = "/usr/lib/kea/hooks/libdhcp_lease_cmds.so"

abbrev pub mysql_hook_lib : String
mysql_hook_lib = "/usr/lib/kea/hooks/libdhcp_mysql.so"

abbrev pub pgsql_hook_lib : String
pgsql_hook_lib = "/usr/lib/kea/hooks/libdhcp_pgsql.so"

module _ (unmarshal : String → Option Json) where
  -- The parameters of a hook that are there and can be read; others are left out.
  unfoldable pub hook_parameters : Option RawJson → Option Json
  hook_parameters none = none
  hook_parameters (some p) = elim p.raw [ none ↦ none | some raw ↦ unmarshal raw ]

  unfoldable pub hook_object : HookLibrary → Object
  hook_object h =
      end ▸ set "library" (text h.library) ▸ set_if_some "parameters" (hook_parameters h.parameters)

  unfoldable pub render_hooks_libraries : List HookLibrary → List Object
  render_hooks_libraries = map hook_object

unfoldable pub render_db_hook : Option DatabaseConfig → Option Object
render_db_hook none = none
render_db_hook (some db) =
    if db.kind == "mysql"
    then some (set "library" (text mysql_hook_lib) end)
    else if db.kind == "postgresql"
    then some (set "library" (text pgsql_hook_lib) end)
    else none

unfoldable pub ha_peer_object : HaPeer → Object
ha_peer_object p =
    end
    ▸ set "name" (text p.name)
    ▸ set "url" (text p.url)
    ▸ set "role" (text p.role)
    ▸ set_if_not_nil "auto-failover" boolean p.auto_failover

unfoldable pub ha_multi_threading_object : HaMultiThreading → Object
ha_multi_threading_object mt =
    end
    ▸ set_if_not_nil "enable-multi-threading" boolean mt.enable_multi_threading
    ▸ set_if_not_nil "http-client-threads" number mt.http_client_threads
    ▸ set_if_not_nil "http-listener-threads" number mt.http_listener_threads

-- An empty map is not stored.
abbrev pub object_if_any : Object → Option Json
object_if_any m = if is_end m then none else some (object m)

unfoldable pub render_ha_multi_threading : Option HaMultiThreading → Option Json
render_ha_multi_threading none = none
render_ha_multi_threading (some mt) = object_if_any (ha_multi_threading_object mt)

unfoldable pub server_name : HaConfig → String → String
server_name ha server_name_override =
    if server_name_override == "" then ha.this_server_name else server_name_override

-- The dedicated listener, if there is a port for it.
unfoldable pub set_listener : ℤ → Object → Object
set_listener ha_listener_port m =
    if ltb_ℤ (pos 0) ha_listener_port
    then m
      ▸ set "http-dedicated-listener" (boolean true)
      ▸ set "http-listener-address" (text "0.0.0.0")
      ▸ set "http-listener-port" (number ha_listener_port)
    else m

unfoldable pub ha_config_object : HaConfig → String → ℤ → Object
ha_config_object ha server_name_override ha_listener_port =
    end
    ▸ set "this-server-name" (text (server_name ha server_name_override))
    ▸ set_if_not_empty "mode" ha.mode
    ▸ set_if_not_nil "heartbeat-delay" number ha.heartbeat_delay
    ▸ set_if_not_nil "max-response-delay" number ha.max_response_delay
    ▸ set_if_not_nil "max-ack-delay" number ha.max_ack_delay
    ▸ set_if_not_nil "max-unacked-clients" number ha.max_unacked_clients
    ▸ set_if_not_nil "send-lease-updates" boolean ha.send_lease_updates
    ▸ set_if_not_nil "sync-leases" boolean ha.sync_leases
    ▸ set_if_not_nil "sync-timeout" number ha.sync_timeout
    ▸ set_if_not_nil "sync-page-limit" number ha.sync_page_limit
    ▸ set_if_not_nil "delayed-updates-limit" number ha.delayed_updates_limit
    ▸ set_if_any "peers" (λ p. object (ha_peer_object p)) ha.peers
    ▸ set_if_some "multi-threading" (render_ha_multi_threading ha.multi_threading)
    ▸ set_listener ha_listener_port

-- lease_cmds first, then HA with its configuration.
unfoldable pub render_ha_hooks : Option HaConfig → String → ℤ → List Object
render_ha_hooks none server_name_override ha_listener_port = []
render_ha_hooks (some ha) server_name_override ha_listener_port =
    set "library" (text lease_cmds_hook_lib) end
    ∷ (end
        ▸ set "library" (text ha_hook_lib)
        ▸ set "parameters" (
            object (
              set "high-availability"
                (array
                  (cons (object (ha_config_object ha server_name_override ha_listener_port)) nil))
                end)))
    ∷ []
