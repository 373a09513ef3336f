-- ===== src/Schema/DatabaseHooks.antt =====
-- The hook libraries of the database backends in a rendered DHCPv4 configuration.
use kea_dhcp_operator.Base.{
  String, Bool, false, ◌≡◌, refl, Option, none, some, List, ◌++◌, arith, ◌==◌, is_some, Bool-cases,
  inl, inr, eq_iff,
}
use kea_dhcp_operator.Json.{Json, Object, get, set}
use kea_dhcp_operator.Api.Common.{DatabaseConfig, HookLibrary, ControlSocket}
use kea_dhcp_operator.Render.Hooks.{render_db_hook, render_ha_hooks, mysql_hook_lib, pgsql_hook_lib}
use kea_dhcp_operator.Api.Ha.{HaConfig}
use kea_dhcp_operator.Render.Dhcp4.{ha_port, ha_port, dhcp_hooks, option_list}
use kea_dhcp_operator.Schema.Hooks.{
  find_library, NotLoaded, find_library-hooks, find_library-db_of_ha_hooks, loaded_hooks,
}

abbrev has_library : String → Option (List Object) → Bool
has_library lib none = false
has_library lib (some hooks) = is_some (find_library lib hooks)

-- Whether the configuration of a server loads a library.
unfoldable pub loads : String → String → Json → Bool
loads server lib root = has_library lib (loaded_hooks server root)

abbrev pub has_kind : String → Option DatabaseConfig → Bool
has_kind kind none = false
has_kind kind (some db) = db.kind == kind

module _ (unmarshal : String → Option Json) where
  find_library-mysql :
      (db : Option DatabaseConfig) (rest : List Object)
      → find_library mysql_hook_lib rest ≡ none
      → is_some (find_library mysql_hook_lib (option_list (render_db_hook db) ++ rest))
        ≡ has_kind "mysql" db
  unfolding find_library render_db_hook get set
  find_library-mysql none rest e = rw e
  find_library-mysql (some db) rest e = ground arith

  find_library-pgsql :
      (db : Option DatabaseConfig) (rest : List Object)
      → find_library pgsql_hook_lib rest ≡ none
      → is_some (find_library pgsql_hook_lib (option_list (render_db_hook db) ++ rest))
        ≡ has_kind "postgresql" db
  unfolding find_library render_db_hook get set
  find_library-pgsql none rest e = rw e
  find_library-pgsql (some db) rest e = elim (Bool-cases (db.kind == "mysql")) [
    | inl y ↦ rw (y, (eq_iff db.kind "mysql").0 y) e'
    | inr n ↦ rw n (ground arith)
  ]
    where
      e' : is_some (find_library pgsql_hook_lib rest) ≡ false
      e' = rw e

  -- The libraries of the backends among the hooks that `dhcp_hooks` puts together.
  pub loads-dhcp_hooks :
      (libraries : List HookLibrary) (db : Option DatabaseConfig) (ha : Option HaConfig)
      (socket : Option ControlSocket) (server name : String) (root : Json)
      → NotLoaded mysql_hook_lib libraries
      → NotLoaded pgsql_hook_lib libraries
      → loaded_hooks server root ≡ some (dhcp_hooks unmarshal libraries db ha socket name)
      → (loads server mysql_hook_lib root ≡ has_kind "mysql" db)
        × (loads server pgsql_hook_lib root ≡ has_kind "postgresql" db)
  unfolding loads dhcp_hooks
  loads-dhcp_hooks libraries db ha socket server name root fm fp hooks =
      let rest = option_list (render_db_hook db) ++ render_ha_hooks ha name (ha_port socket) in
      let no_ha =
        λ (lib : String). find_library-db_of_ha_hooks unmarshal lib ha name (ha_port socket) in
      (
        rw (hooks, find_library-hooks unmarshal mysql_hook_lib libraries rest fm)
            (find_library-mysql db _ (no_ha mysql_hook_lib refl refl)),
        rw (hooks, find_library-hooks unmarshal pgsql_hook_lib libraries rest fp)
            (find_library-pgsql db _ (no_ha pgsql_hook_lib refl refl)),
      )
