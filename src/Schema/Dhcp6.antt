-- ===== src/Schema/Dhcp6.antt =====
-- The DHCPv6 configuration is read back from its rendering by the JSON names that the structs of
-- api/v1alpha1/keadhcp6server_types.go give their fields.
use kea_dhcp_operator.Base.{String, ◌≡◌, Option, none, some, [], map, All, ◌>>=◌}
use kea_dhcp_operator.Json.{
  Json, object, get, get_laws, read_laws, optional_text, optional, listed, required, as_text,
  as_number, as_boolean,
}
use mathlib.Core.Option
use kea_dhcp_operator.Api.Dhcp6.{KeaDhcp6ServerSpec}
use kea_dhcp_operator.Render.Dhcp6.{Dhcp6ConfigRenderer, dhcp6_object, render_json_internal}
use kea_dhcp_operator.Schema.Dhcp4.{no_container, as_root}
use kea_dhcp_operator.Schema.Options.{
  read_option, read_option-render_option_data, read_option_def, read_option_def-render_option_def,
  read_client_class, read_client_class-render_client_classes, read_reservation,
  read_reservation-render_reservations,
}
use kea_dhcp_operator.Schema.Parts.{
  read_control_socket, read_control_socket-render_control_socket, read_logger,
  read_logger-render_loggers, read_database, read_interfaces,
  read_interfaces-render_interfaces_config, HasAddress,
}
use kea_dhcp_operator.Schema.Databases.{
  read_multi_threading, read_multi_threading-render_multi_threading, HasSetting, without_secret,
  read_database-render_database_config, listed-hosts_databases_objects,
}
use kea_dhcp_operator.Schema.Subnets6.{
  read_subnet6, HaveAddresses, read_subnets6, read_shared_network6, read_shared_networks6,
}

-- What of a spec is Kea's configuration. The hook libraries have theorems of their own.
abbrev pub kea_part : KeaDhcp6ServerSpec → KeaDhcp6ServerSpec
kea_part s = record s {
  container = no_container;
  replicas = none;
  placement = none;
  host_network = none;
  lease_database = Option.map without_secret s.lease_database;
  hosts_database = Option.map without_secret s.hosts_database;
  hosts_databases = map without_secret s.hosts_databases;
  hooks_libraries = [];
  high_availability = none;
  stork = none;
}

unfoldable pub read_dhcp6 : Json → Option KeaDhcp6ServerSpec
read_dhcp6 (object m) = do
  interfaces_config ← required read_interfaces (get "interfaces-config" m)
  lease_database ← optional read_database (get "lease-database" m)
  hosts_database ← optional read_database (get "hosts-database" m)
  hosts_databases ← listed read_database (get "hosts-databases" m)
  subnet6 ← listed read_subnet6 (get "subnet6" m)
  shared_networks ← listed read_shared_network6 (get "shared-networks" m)
  option_data ← listed read_option (get "option-data" m)
  option_def ← listed read_option_def (get "option-def" m)
  client_classes ← listed read_client_class (get "client-classes" m)
  reservations ← listed read_reservation (get "reservations" m)
  host_reservation_identifiers ← listed as_text (get "host-reservation-identifiers" m)
  control_socket ← optional read_control_socket (get "control-socket" m)
  loggers ← listed read_logger (get "loggers" m)
  preferred_lifetime ← optional as_number (get "preferred-lifetime" m)
  valid_lifetime ← optional as_number (get "valid-lifetime" m)
  min_valid_lifetime ← optional as_number (get "min-valid-lifetime" m)
  max_valid_lifetime ← optional as_number (get "max-valid-lifetime" m)
  renew_timer ← optional as_number (get "renew-timer" m)
  rebind_timer ← optional as_number (get "rebind-timer" m)
  calculate_tee_times ← optional as_boolean (get "calculate-tee-times" m)
  t1_percent ← optional as_text (get "t1-percent" m)
  t2_percent ← optional as_text (get "t2-percent" m)
  server_tag ← optional_text (get "server-tag" m)
  rapid_commit ← optional as_boolean (get "rapid-commit" m)
  ddns_send_updates ← optional as_boolean (get "ddns-send-updates" m)
  ddns_qualifying_suffix ← optional_text (get "ddns-qualifying-suffix" m)
  multi_threading ← optional read_multi_threading (get "multi-threading" m)
  some (record {
    container = no_container;
    replicas = none;
    placement = none;
    host_network = none;
    interfaces_config = interfaces_config;
    lease_database = lease_database;
    hosts_database = hosts_database;
    hosts_databases = hosts_databases;
    subnet6 = subnet6;
    shared_networks = shared_networks;
    option_data = option_data;
    option_def = option_def;
    client_classes = client_classes;
    reservations = reservations;
    host_reservation_identifiers = host_reservation_identifiers;
    hooks_libraries = [];
    control_socket = control_socket;
    loggers = loggers;
    preferred_lifetime = preferred_lifetime;
    valid_lifetime = valid_lifetime;
    min_valid_lifetime = min_valid_lifetime;
    max_valid_lifetime = max_valid_lifetime;
    renew_timer = renew_timer;
    rebind_timer = rebind_timer;
    calculate_tee_times = calculate_tee_times;
    t1_percent = t1_percent;
    t2_percent = t2_percent;
    server_tag = server_tag;
    rapid_commit = rapid_commit;
    ddns_send_updates = ddns_send_updates;
    ddns_qualifying_suffix = ddns_qualifying_suffix;
    high_availability = none;
    multi_threading = multi_threading;
    stork = none;
  })
read_dhcp6 _ = none

-- The configuration under the key "Dhcp6" of the root.
unfoldable pub read_dhcp6_root : Json → Option KeaDhcp6ServerSpec
read_dhcp6_root v = required read_dhcp6 (as_root "Dhcp6" v)

-- Relays name addresses, and a multi-threading section sets something.
pub record IsReadable (s : KeaDhcp6ServerSpec) : Type 0 where
  pub subnets : HaveAddresses s.subnet6
  pub networks : All (λ sn. HasAddress sn.relay × HaveAddresses sn.subnet6) s.shared_networks
  pub threads : HasSetting s.multi_threading

module _ (unmarshal : String → Option Json) where
  read_dhcp6-dhcp6_object :
      (r : Dhcp6ConfigRenderer) (server_name : String)
      → IsReadable r.spec
      → read_dhcp6 (object (dhcp6_object unmarshal r server_name)) ≡ some (kea_part r.spec)
  unfolding read_dhcp6 dhcp6_object
  read_dhcp6-dhcp6_object r server_name h = simp (
    get_laws,
    read_laws,
    read_interfaces-render_interfaces_config,
    read_database-render_database_config,
    listed-hosts_databases_objects,
    read_subnets6 r.spec.subnet6 h.subnets,
    read_shared_networks6 r.spec.shared_networks h.networks,
    read_option-render_option_data,
    read_option_def-render_option_def,
    read_client_class-render_client_classes,
    read_reservation-render_reservations,
    read_control_socket-render_control_socket,
    read_logger-render_loggers,
    read_multi_threading-render_multi_threading r.spec.multi_threading h.threads,
  )

  -- Whatever the credentials, the server name and the hooks, the DHCPv6 configuration that is
  -- rendered reads back, by the JSON names of the API structs, as the Kea part of the spec it was
  -- made from, for a spec whose relays name addresses and whose multi-threading section, if it has
  -- one, sets something: no setting of that part is lost, renamed or made up.
  pub read_dhcp6-render_json_internal :
      (r : Dhcp6ConfigRenderer) (server_name : String)
      → IsReadable r.spec
      → read_dhcp6_root (render_json_internal unmarshal r server_name) ≡ some (kea_part r.spec)
  unfolding read_dhcp6_root render_json_internal
  read_dhcp6-render_json_internal r server_name h =
      simp get_laws (read_dhcp6-dhcp6_object r server_name h)
