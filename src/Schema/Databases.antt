-- ===== src/Schema/Databases.antt =====
-- Databases with their credentials, and multi-threading, are read back from their rendering.
use kea_dhcp_operator.Base.{
  String, ◌≡◌, refl, Option, none, some, List, [], ◌∷◌, arith, false, true, map, is_some, ◌||◌,
  ◌>>=◌,
}
use kea_dhcp_operator.Json.{
  Json, object, get, get_laws, read_laws, optional, listed, as_number, as_boolean, any_of, is_end,
  set, set_if_not_nil, items, read_items,
}
use mathlib.Core.Option
use kea_dhcp_operator.Api.Common.{DatabaseConfig}
use kea_dhcp_operator.Api.Dhcp4.{MultiThreadingConfig}
use kea_dhcp_operator.Render.Parts.{render_database_config}
use kea_dhcp_operator.Render.Dhcp4.{
  DbCredentials, multi_threading_object, render_multi_threading, hosts_databases_objects,
}
use kea_dhcp_operator.Schema.Parts.{read_database, read_database-database_object}

unfoldable pub read_multi_threading : Json → Option MultiThreadingConfig
read_multi_threading (object m) = do
  enable_multi_threading ← optional as_boolean (get "enable-multi-threading" m)
  thread_pool_size ← optional as_number (get "thread-pool-size" m)
  packet_queue_size ← optional as_number (get "packet-queue-size" m)
  some (record {
    enable_multi_threading = enable_multi_threading;
    thread_pool_size = thread_pool_size;
    packet_queue_size = packet_queue_size;
  })
read_multi_threading _ = none

pub read_multi_threading-object :
    (mt : MultiThreadingConfig)
    → read_multi_threading (object (multi_threading_object mt)) ≡ some mt
unfolding read_multi_threading multi_threading_object
read_multi_threading-object mt = simp (get_laws, read_laws)

-- A multi-threading section sets something, or there is none.
abbrev pub HasSetting : Option MultiThreadingConfig → Type 0
HasSetting none = Unit
HasSetting (some mt) =
    (is_some mt.enable_multi_threading
      || (is_some mt.thread_pool_size || is_some mt.packet_queue_size))
    ≡ true

is_end-multi_threading_object :
    (mt : MultiThreadingConfig) → HasSetting (some mt) → is_end (multi_threading_object mt) ≡ false
unfolding multi_threading_object set_if_not_nil set
is_end-multi_threading_object mt h = ground arith

pub read_multi_threading-render_multi_threading :
    (mt : Option MultiThreadingConfig)
    → HasSetting mt
    → optional read_multi_threading (render_multi_threading mt) ≡ some mt
unfolding render_multi_threading optional
read_multi_threading-render_multi_threading none h = refl
read_multi_threading-render_multi_threading (some mt) h =
    rw (is_end-multi_threading_object mt h) (rw (read_multi_threading-object mt))

-- The name of the credentials' Secret is not part of Kea's configuration.
abbrev pub without_secret : DatabaseConfig → DatabaseConfig
without_secret db = record db { credentials_secret_ref = none }

pub read_database-render_database_config :
    (db : Option DatabaseConfig) (user password : String)
    → optional read_database (render_database_config db user password)
      ≡ some (Option.map without_secret db)
unfolding render_database_config optional
read_database-render_database_config none user password = refl
read_database-render_database_config (some db) user password =
    rw (read_database-database_object db user password)

read_items-hosts_databases_objects :
    (dbs : List DatabaseConfig) (creds : List DbCredentials)
    → read_items read_database (items object (hosts_databases_objects dbs creds))
      ≡ some (map without_secret dbs)
unfolding hosts_databases_objects
read_items-hosts_databases_objects [] creds = refl
read_items-hosts_databases_objects (db ∷ dbs) [] =
    rw (read_database-database_object db "" "", read_items-hosts_databases_objects dbs [])
read_items-hosts_databases_objects (db ∷ dbs) (c ∷ creds) = rw (
  read_database-database_object db c.user c.password,
  read_items-hosts_databases_objects dbs creds,
)

pub listed-hosts_databases_objects :
    (dbs : List DatabaseConfig) (creds : List DbCredentials)
    → listed read_database (any_of object (hosts_databases_objects dbs creds))
      ≡ some (map without_secret dbs)
listed-hosts_databases_objects [] creds = unfold listed hosts_databases_objects in refl
listed-hosts_databases_objects (db ∷ dbs) [] =
    unfold listed hosts_databases_objects in
    (unfold hosts_databases_objects in read_items-hosts_databases_objects (db ∷ dbs) [])
listed-hosts_databases_objects (db ∷ dbs) (c ∷ creds) =
    unfold listed hosts_databases_objects in
    read_items-hosts_databases_objects (db ∷ dbs) (c ∷ creds)
