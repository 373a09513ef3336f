-- ===== src/Schema/Dhcp4Hooks.antt =====
-- The hook libraries that a rendered DHCPv4 configuration loads.
use kea_dhcp_operator.Base.{
  String, Bool, ◌≡◌, Option, none, some, map, ◌==◌, if◌then◌else◌, or_else-none,
}
use kea_dhcp_operator.Json.{Json, get_laws}
use kea_dhcp_operator.Api.Ha.{HaConfig}
use kea_dhcp_operator.Render.Hooks.{ha_hook_lib, mysql_hook_lib, pgsql_hook_lib}
use kea_dhcp_operator.Render.Dhcp4.{dhcp_hooks}
use kea_dhcp_operator.Render.Dhcp4.{Dhcp4ConfigRenderer, dhcp4_object, render_json_internal}
use kea_dhcp_operator.Schema.Ha.{HasHaSetting, without_address}
use kea_dhcp_operator.Schema.Hooks.{
  NotLoaded, loaded_hooks, listed-hooks, ha_of, ha_of-dhcp_hooks, ha_of-dhcp_hooks-none,
}
use kea_dhcp_operator.Schema.DatabaseHooks.{loads, has_kind, loads-dhcp_hooks}

abbrev pub dhcp4_ha : Json → Option HaConfig
dhcp4_ha = ha_of "Dhcp4"

abbrev pub dhcp4_loads : String → Json → Bool
dhcp4_loads = loads "Dhcp4"

module _ (unmarshal : String → Option Json) where
  loaded_hooks-render_json_internal :
      (r : Dhcp4ConfigRenderer) (name : String)
      → loaded_hooks "Dhcp4" (render_json_internal unmarshal r name)
        ≡ some (
            dhcp_hooks unmarshal r.spec.hooks_libraries r.spec.lease_database
              r.spec.high_availability r.spec.control_socket name)
  unfolding loaded_hooks render_json_internal dhcp4_object
  loaded_hooks-render_json_internal r name = simp (get_laws, or_else-none, listed-hooks unmarshal)

  -- With high availability in the spec, and no hook of the user's that loads its library, the
  -- rendered DHCPv4 configuration loads the HA library with the spec's configuration, under the server
  -- name that the caller asks for, or the spec's if the caller gives an empty one; the TLS Secret and
  -- the peers' addresses are not in it. If it has a multi-threading section, that sets something.
  pub dhcp4_ha-render_json_internal :
      (r : Dhcp4ConfigRenderer) (name : String) {ha : HaConfig}
      → NotLoaded ha_hook_lib r.spec.hooks_libraries
      → r.spec.high_availability ≡ some ha
      → HasHaSetting ha.multi_threading
      → dhcp4_ha (render_json_internal unmarshal r name)
        ≡ some (record ha {
          this_server_name = if name == "" then ha.this_server_name else name;
          tls = none;
          peers = map without_address ha.peers;
        })
  dhcp4_ha-render_json_internal r name {ha} free on h =
      ha_of-dhcp_hooks unmarshal r.spec.hooks_libraries r.spec.lease_database r.spec.control_socket
        "Dhcp4" name _ ha free h (rw (← on) (loaded_hooks-render_json_internal r name))

  -- Without high availability in the spec, and no hook of the user's that loads its library, the
  -- DHCPv4 configuration loads no HA configuration, whatever server name the caller asks for.
  pub dhcp4_ha-render_json_internal-none :
      (r : Dhcp4ConfigRenderer) (name : String)
      → NotLoaded ha_hook_lib r.spec.hooks_libraries
      → r.spec.high_availability ≡ none
      → dhcp4_ha (render_json_internal unmarshal r name) ≡ none
  dhcp4_ha-render_json_internal-none r name free off =
      ha_of-dhcp_hooks-none unmarshal r.spec.hooks_libraries r.spec.lease_database
        r.spec.control_socket "Dhcp4" name _ free
        (rw (← off) (loaded_hooks-render_json_internal r name))

  -- The library of a MySQL or PostgreSQL backend is loaded by the DHCPv4 configuration exactly if the
  -- lease database is of that type, when no hook of the user's loads it.
  pub dhcp4_loads-render_json_internal :
      (r : Dhcp4ConfigRenderer) (name : String)
      → NotLoaded mysql_hook_lib r.spec.hooks_libraries
      → NotLoaded pgsql_hook_lib r.spec.hooks_libraries
      → (dhcp4_loads mysql_hook_lib (render_json_internal unmarshal r name)
          ≡ has_kind "mysql" r.spec.lease_database)
        × (dhcp4_loads pgsql_hook_lib (render_json_internal unmarshal r name)
            ≡ has_kind "postgresql" r.spec.lease_database)
  dhcp4_loads-render_json_internal r name fm fp =
      loads-dhcp_hooks unmarshal r.spec.hooks_libraries r.spec.lease_database
        r.spec.high_availability r.spec.control_socket "Dhcp4" name _ fm fp
        (loaded_hooks-render_json_internal r name)
