-- ===== src/Schema/Hooks.antt =====
-- The hook libraries of a rendered DHCPv4 configuration, found by their paths.
use kea_dhcp_operator.Base.{
  String, Bool, false, ◌≡◌, refl, Option, none, some, List, [], ◌∷◌, ◌++◌, map, arith, ◌==◌, All,
  if◌then◌else◌, ◌>>=◌, ◌▸◌,
}
use kea_dhcp_operator.Base.Int.{ℤ}
use kea_dhcp_operator.Json.{
  Json, text, array, object, nil, cons, Object, end, any_of, get, set, get_laws, as_object,
  required, listed, listed-any_of,
}
use kea_dhcp_operator.Api.Common.{HookLibrary, DatabaseConfig, ControlSocket}
use kea_dhcp_operator.Api.Ha.{HaConfig}
use kea_dhcp_operator.Render.Hooks.{
  hook_object, render_hooks_libraries, render_db_hook, render_ha_hooks, ha_config_object,
  ha_hook_lib, lease_cmds_hook_lib, mysql_hook_lib, pgsql_hook_lib,
}
use kea_dhcp_operator.Render.Dhcp4.{ha_port, dhcp_hooks, option_list}
use kea_dhcp_operator.Schema.Ha.{read_ha, HasHaSetting, without_address, read_ha-ha_config_object}

abbrev library_is : String → Option Json → Bool
library_is lib (some (text s)) = s == lib
library_is lib _ = false

-- The first entry that loads a library.
unfoldable pub find_library : String → List Object → Option Object
find_library lib [] = none
find_library lib (m ∷ ms) = if library_is lib (get "library" m) then some m else find_library lib ms

-- No hook of the user's loads a library.
abbrev pub NotLoaded : String → List HookLibrary → Type 0
NotLoaded lib = All (λ h. (h.library == lib) ≡ false)

module _ (unmarshal : String → Option Json) where
  library-hook_object :
      (h : HookLibrary) → get "library" (hook_object unmarshal h) ≡ some (text h.library)
  unfolding hook_object
  library-hook_object h = simp get_laws

  pub find_library-hooks :
      (lib : String) (hs : List HookLibrary) (rest : List Object)
      → NotLoaded lib hs
      → find_library lib (render_hooks_libraries unmarshal hs ++ rest) ≡ find_library lib rest
  unfolding render_hooks_libraries find_library
  find_library-hooks lib [] rest h = refl
  find_library-hooks lib (x ∷ hs) rest h =
      rw (library-hook_object x, h.0) (find_library-hooks lib hs rest h.1)

  pub find_library-db_hook :
      (lib : String) (db : Option DatabaseConfig) (rest : List Object)
      → (mysql_hook_lib == lib) ≡ false
      → (pgsql_hook_lib == lib) ≡ false
      → find_library lib (option_list (render_db_hook db) ++ rest) ≡ find_library lib rest
  unfolding render_db_hook find_library get set
  find_library-db_hook lib none rest m p = refl
  find_library-db_hook lib (some db) rest m p = ground arith

  -- The entry of the HA library that `render_ha_hooks` makes.
  ha_entry : HaConfig → String → ℤ → Object
  ha_entry ha name port =
      end
      ▸ set "library" (text ha_hook_lib)
      ▸ set "parameters" (
          object (
            set "high-availability" (array (cons (object (ha_config_object ha name port)) nil))
              end))

  find_library-ha_hooks :
      (ha : HaConfig) (name : String) (port : ℤ)
      → find_library ha_hook_lib (render_ha_hooks (some ha) name port)
        ≡ some (ha_entry ha name port)
  unfolding find_library render_ha_hooks ha_entry get set
  find_library-ha_hooks ha name port = refl

  pub find_library-db_of_ha_hooks :
      (lib : String) (ha : Option HaConfig) (name : String) (port : ℤ)
      → (lease_cmds_hook_lib == lib) ≡ false
      → (ha_hook_lib == lib) ≡ false
      → find_library lib (render_ha_hooks ha name port) ≡ none
  unfolding find_library render_ha_hooks get set
  find_library-db_of_ha_hooks lib none name port l h = refl
  find_library-db_of_ha_hooks lib (some ha) name port l h = rw (l, h)

-- The hook libraries that the configuration of a server loads, in order.
unfoldable pub loaded_hooks : String → Json → Option (List Object)
loaded_hooks server root = do
  m ← as_object root
  settings ← required as_object (get server m)
  listed as_object (get "hooks-libraries" settings)

abbrev first : Json → Option Json
first (array (cons v vs)) = some v
first _ = none

-- The configuration of high availability in the entry of its library.
ha_parameters : Object → Option HaConfig
ha_parameters entry = do
  p ← required as_object (get "parameters" entry)
  v ← required first (get "high-availability" p)
  read_ha v

-- The HA configuration that the configuration of a server loads.
unfoldable pub ha_of : String → Json → Option HaConfig
unfolding ha_parameters
ha_of server root = do
  hooks ← loaded_hooks server root
  entry ← find_library ha_hook_lib hooks
  ha_parameters entry

module _ (unmarshal : String → Option Json) where
  pub listed-hooks : (ms : List Object) → listed as_object (any_of object ms) ≡ some ms
  listed-hooks = listed-any_of as_object object (λ m. refl)

  ha_parameters-ha_entry :
      (ha : HaConfig) (name : String) (port : ℤ)
      → ha_parameters (ha_entry unmarshal ha name port)
        ≡ read_ha (object (ha_config_object ha name port))
  unfolding ha_parameters ha_entry
  ha_parameters-ha_entry ha name port = simp get_laws

  module _ (libraries : List HookLibrary) (db : Option DatabaseConfig)
      (socket : Option ControlSocket) (server name : String) (root : Json) where
    -- The HA configuration among the hooks that `dhcp_hooks` puts together.
    pub ha_of-dhcp_hooks :
        (ha : HaConfig)
        → NotLoaded ha_hook_lib libraries
        → HasHaSetting ha.multi_threading
        → loaded_hooks server root ≡ some (dhcp_hooks unmarshal libraries db (some ha) socket name)
        → ha_of server root
          ≡ some (record ha {
            this_server_name = if name == "" then ha.this_server_name else name;
            tls = none;
            peers = map without_address ha.peers;
          })
    unfolding ha_of dhcp_hooks
    ha_of-dhcp_hooks ha free h hooks = rw hooks (
        rw
          (
            find_library-hooks unmarshal ha_hook_lib libraries
                (option_list (render_db_hook db) ++ render_ha_hooks (some ha) name (ha_port socket))
                free,
            find_library-db_hook unmarshal ha_hook_lib db
                (render_ha_hooks (some ha) name (ha_port socket)) refl refl,
            find_library-ha_hooks unmarshal ha name (ha_port socket),
            ha_parameters-ha_entry ha name (ha_port socket),
          )
          (read_ha-ha_config_object ha name (ha_port socket) h))

    pub ha_of-dhcp_hooks-none :
        NotLoaded ha_hook_lib libraries
        → loaded_hooks server root ≡ some (dhcp_hooks unmarshal libraries db none socket name)
        → ha_of server root ≡ none
    unfolding ha_of dhcp_hooks
    ha_of-dhcp_hooks-none free hooks = rw hooks (
        rw
          (
            find_library-hooks unmarshal ha_hook_lib libraries
                (option_list (render_db_hook db) ++ render_ha_hooks none name (ha_port socket))
                free,
            find_library-db_hook unmarshal ha_hook_lib db
                (render_ha_hooks none name (ha_port socket)) refl refl,
          )
          (unfold find_library render_ha_hooks in refl))
