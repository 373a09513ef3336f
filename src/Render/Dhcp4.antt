-- ===== src/Render/Dhcp4.antt =====
-- internal/kea/dhcp4_config.go: the whole DHCPv4 configuration, as the JSON value that is printed.
use kea_dhcp_operator.Base.{String, Option, none, some, List, [], ◌∷◌, ◌++◌, ◌▸◌}
use kea_dhcp_operator.Base.Int.{ℤ, pos}
use kea_dhcp_operator.Json.{
  Json, boolean, number, text, object, Object, end, set, set_if_some, set_if_not_nil,
  set_if_not_empty, set_if_any,
}
use kea_dhcp_operator.Api.Common.{DatabaseConfig, ControlSocket, HookLibrary}
use kea_dhcp_operator.Api.Ha.{HaConfig}
use kea_dhcp_operator.Api.Dhcp4.{KeaDhcp4ServerSpec, MultiThreadingConfig}
use kea_dhcp_operator.Render.Options.{
  render_option_data, render_option_def, render_client_classes, render_reservations,
}
use kea_dhcp_operator.Render.Parts.{
  render_control_socket, render_loggers, database_object, render_database_config,
  render_interfaces_config,
}
use kea_dhcp_operator.Render.Hooks.{
  render_hooks_libraries, render_db_hook, render_ha_hooks, object_if_any,
}
use kea_dhcp_operator.Render.Subnets4.{render_subnets4, render_shared_networks4}

pub record DbCredentials : Type 0 where
  pub user : String
  pub password : String

abbrev pub no_credentials : DbCredentials
no_credentials = record { user = ""; password = "" }

pub record Dhcp4ConfigRenderer : Type 0 where
  pub spec : KeaDhcp4ServerSpec
  pub lease_db_creds : DbCredentials
  pub hosts_db_creds : DbCredentials
  pub hosts_dbs_creds : List DbCredentials

unfoldable pub new_dhcp4_config_renderer : KeaDhcp4ServerSpec → Dhcp4ConfigRenderer
new_dhcp4_config_renderer spec = record {
  spec = spec;
  lease_db_creds = no_credentials;
  hosts_db_creds = no_credentials;
  hosts_dbs_creds = [];
}

-- The loop over `HostsDatabases`: a database with no credentials at its index has empty ones.
unfoldable pub hosts_databases_objects : List DatabaseConfig → List DbCredentials → List Object
hosts_databases_objects [] creds = []
hosts_databases_objects (db ∷ dbs) [] = database_object db "" "" ∷ hosts_databases_objects dbs []
hosts_databases_objects (db ∷ dbs) (c ∷ creds) =
    database_object db c.user c.password ∷ hosts_databases_objects dbs creds

abbrev pub option_list {ℓ} : {A : Type ℓ} → Option A → List A
option_list none = []
option_list (some a) = a ∷ []

-- The HTTP port of the control socket, or 0.
unfoldable pub ha_port : Option ControlSocket → ℤ
ha_port none = pos 0
ha_port (some cs) = elim cs.socket_port [ none ↦ pos 0 | some port ↦ port ]

unfoldable pub multi_threading_object : MultiThreadingConfig → Object
multi_threading_object mt =
    end
    ▸ set_if_not_nil "enable-multi-threading" boolean mt.enable_multi_threading
    ▸ set_if_not_nil "thread-pool-size" number mt.thread_pool_size
    ▸ set_if_not_nil "packet-queue-size" number mt.packet_queue_size

unfoldable pub render_multi_threading : Option MultiThreadingConfig → Option Json
render_multi_threading none = none
render_multi_threading (some mt) = object_if_any (multi_threading_object mt)

module _ (unmarshal : String → Option Json) where
  -- The user's hooks, then that of the lease database, then those of high availability.
  unfoldable pub dhcp_hooks :
      List HookLibrary
      → Option DatabaseConfig
      → Option HaConfig
      → Option ControlSocket
      → String
      → List Object
  dhcp_hooks libraries lease_database ha control_socket server_name_override =
      render_hooks_libraries unmarshal libraries
      ++ (option_list (render_db_hook lease_database)
          ++ render_ha_hooks ha server_name_override (ha_port control_socket))

  -- The map under "Dhcp4".
  unfoldable pub dhcp4_object : Dhcp4ConfigRenderer → String → Object
  dhcp4_object r server_name_override =
      end
      ▸ set "interfaces-config" (object (render_interfaces_config s.interfaces_config))
      ▸ set_if_some "lease-database"
          (render_database_config s.lease_database r.lease_db_creds.user r.lease_db_creds.password)
      ▸ set_if_some "hosts-database"
          (render_database_config s.hosts_database r.hosts_db_creds.user r.hosts_db_creds.password)
      ▸ set_if_any "hosts-databases" object
          (hosts_databases_objects s.hosts_databases r.hosts_dbs_creds)
      ▸ set_if_some "subnet4" (render_subnets4 s.subnet4)
      ▸ set_if_some "shared-networks" (render_shared_networks4 s.shared_networks)
      ▸ set_if_some "option-data" (render_option_data s.option_data)
      ▸ set_if_some "option-def" (render_option_def s.option_def)
      ▸ set_if_some "client-classes" (render_client_classes s.client_classes)
      ▸ set_if_some "reservations" (render_reservations s.reservations)
      ▸ set_if_any "host-reservation-identifiers" text s.host_reservation_identifiers
      ▸ set_if_any "hooks-libraries" object (
          dhcp_hooks s.hooks_libraries s.lease_database s.high_availability s.control_socket
            server_name_override)
      ▸ set_if_some "control-socket" (render_control_socket s.control_socket)
      ▸ set_if_some "loggers" (render_loggers s.loggers)
      ▸ set_if_not_nil "valid-lifetime" number s.valid_lifetime
      ▸ set_if_not_nil "min-valid-lifetime" number s.min_valid_lifetime
      ▸ set_if_not_nil "max-valid-lifetime" number s.max_valid_lifetime
      ▸ set_if_not_nil "renew-timer" number s.renew_timer
      ▸ set_if_not_nil "rebind-timer" number s.rebind_timer
      ▸ set_if_not_nil "calculate-tee-times" boolean s.calculate_tee_times
      ▸ set_if_not_nil "t1-percent" text s.t1_percent
      ▸ set_if_not_nil "t2-percent" text s.t2_percent
      ▸ set_if_not_nil "authoritative" boolean s.authoritative
      ▸ set_if_not_nil "match-client-id" boolean s.match_client_id
      ▸ set_if_not_empty "server-tag" s.server_tag
      ▸ set_if_not_empty "next-server" s.next_server
      ▸ set_if_not_empty "boot-file-name" s.boot_file_name
      ▸ set_if_not_empty "server-hostname" s.server_hostname
      ▸ set_if_not_nil "ddns-send-updates" boolean s.ddns_send_updates
      ▸ set_if_not_nil "ddns-override-no-update" boolean s.ddns_override_no_update
      ▸ set_if_not_nil "ddns-override-client-update" boolean s.ddns_override_client_update
      ▸ set_if_not_empty "ddns-replace-client-name" s.ddns_replace_client_name
      ▸ set_if_not_empty "ddns-generated-prefix" s.ddns_generated_prefix
      ▸ set_if_not_empty "ddns-qualifying-suffix" s.ddns_qualifying_suffix
      ▸ set_if_not_nil "ddns-use-conflict-resolution" boolean s.ddns_use_conflict_resolution
      ▸ set_if_some "multi-threading" (render_multi_threading s.multi_threading)
    where
      open r use {spec as s}

  -- The value that json.MarshalIndent prints.
  unfoldable pub render_json_internal : Dhcp4ConfigRenderer → String → Json
  render_json_internal r server_name_override =
      object (set "Dhcp4" (object (dhcp4_object r server_name_override)) end)

  unfoldable pub render_json : Dhcp4ConfigRenderer → Json
  unfolding render_json_internal
  render_json r = render_json_internal r ""

  unfoldable pub render_json_with_server_name : Dhcp4ConfigRenderer → String → Json
  unfolding render_json_internal
  render_json_with_server_name r server_name = render_json_internal r server_name
