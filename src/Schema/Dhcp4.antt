-- ===== src/Schema/Dhcp4.antt =====
-- The DHCPv4 configuration is read back from its rendering by the JSON names that the structs of
-- api/v1alpha1/keadhcp4server_types.go give their fields.
use kea_dhcp_operator.Base.{String, ◌≡◌, Option, none, some, [], map, All, ◌>>=◌}
use kea_dhcp_operator.Json.{
  Json, object, get, get_laws, read_laws, optional_text, optional, listed, required, as_text,
  as_number, as_boolean, null,
}
use mathlib.Core.Option
use kea_dhcp_operator.Api.Common.{ContainerConfig}
use kea_dhcp_operator.Api.Dhcp4.{KeaDhcp4ServerSpec}
use kea_dhcp_operator.Render.Dhcp4.{Dhcp4ConfigRenderer, dhcp4_object, render_json_internal}
use kea_dhcp_operator.Schema.Options.{
  read_option, read_option-render_option_data, read_option_def, read_option_def-render_option_def,
  read_client_class, read_client_class-render_client_classes, read_reservation,
  read_reservation-render_reservations,
}
use kea_dhcp_operator.Schema.Parts.{
  read_control_socket, read_control_socket-render_control_socket, read_logger,
  read_logger-render_loggers, read_database, read_interfaces,
  read_interfaces-render_interfaces_config, HasAddress,
}
use kea_dhcp_operator.Schema.Databases.{
  read_multi_threading, read_multi_threading-render_multi_threading, HasSetting, without_secret,
  read_database-render_database_config, listed-hosts_databases_objects,
}
use kea_dhcp_operator.Schema.Subnets4.{
  read_subnet4, HaveAddresses, read_subnets4, read_shared_network4, read_shared_networks4,
}

abbrev pub no_container : ContainerConfig
no_container = record {
  image = "";
  image_pull_policy = "";
  resources = null;
  image_pull_secrets = [];
}

-- What of a spec is Kea's configuration. The hook libraries have theorems of their own.
abbrev pub kea_part : KeaDhcp4ServerSpec → KeaDhcp4ServerSpec
kea_part s = record s {
  container = no_container;
  replicas = none;
  placement = none;
  host_network = none;
  lease_database = Option.map without_secret s.lease_database;
  hosts_database = Option.map without_secret s.hosts_database;
  hosts_databases = map without_secret s.hosts_databases;
  hooks_libraries = [];
  high_availability = none;
  stork = none;
}

unfoldable pub read_dhcp4 : Json → Option KeaDhcp4ServerSpec
read_dhcp4 (object m) = do
  interfaces_config ← required read_interfaces (get "interfaces-config" m)
  lease_database ← optional read_database (get "lease-database" m)
  hosts_database ← optional read_database (get "hosts-database" m)
  hosts_databases ← listed read_database (get "hosts-databases" m)
  subnet4 ← listed read_subnet4 (get "subnet4" m)
  shared_networks ← listed read_shared_network4 (get "shared-networks" m)
  option_data ← listed read_option (get "option-data" m)
  option_def ← listed read_option_def (get "option-def" m)
  client_classes ← listed read_client_class (get "client-classes" m)
  reservations ← listed read_reservation (get "reservations" m)
  host_reservation_identifiers ← listed as_text (get "host-reservation-identifiers" m)
  control_socket ← optional read_control_socket (get "control-socket" m)
  loggers ← listed read_logger (get "loggers" m)
  valid_lifetime ← optional as_number (get "valid-lifetime" m)
  min_valid_lifetime ← optional as_number (get "min-valid-lifetime" m)
  max_valid_lifetime ← optional as_number (get "max-valid-lifetime" m)
  renew_timer ← optional as_number (get "renew-timer" m)
  rebind_timer ← optional as_number (get "rebind-timer" m)
  calculate_tee_times ← optional as_boolean (get "calculate-tee-times" m)
  t1_percent ← optional as_text (get "t1-percent" m)
  t2_percent ← optional as_text (get "t2-percent" m)
  authoritative ← optional as_boolean (get "authoritative" m)
  match_client_id ← optional as_boolean (get "match-client-id" m)
  server_tag ← optional_text (get "server-tag" m)
  next_server ← optional_text (get "next-server" m)
  boot_file_name ← optional_text (get "boot-file-name" m)
  server_hostname ← optional_text (get "server-hostname" m)
  ddns_send_updates ← optional as_boolean (get "ddns-send-updates" m)
  ddns_override_no_update ← optional as_boolean (get "ddns-override-no-update" m)
  ddns_override_client_update ← optional as_boolean (get "ddns-override-client-update" m)
  ddns_replace_client_name ← optional_text (get "ddns-replace-client-name" m)
  ddns_generated_prefix ← optional_text (get "ddns-generated-prefix" m)
  ddns_qualifying_suffix ← optional_text (get "ddns-qualifying-suffix" m)
  ddns_use_conflict_resolution ← optional as_boolean (get "ddns-use-conflict-resolution" m)
  multi_threading ← optional read_multi_threading (get "multi-threading" m)
  some (record {
    container = no_container;
    replicas = none;
    placement = none;
    host_network = none;
    interfaces_config = interfaces_config;
    lease_database = lease_database;
    hosts_database = hosts_database;
    hosts_databases = hosts_databases;
    subnet4 = subnet4;
    shared_networks = shared_networks;
    option_data = option_data;
    option_def = option_def;
    client_classes = client_classes;
    reservations = reservations;
    host_reservation_identifiers = host_reservation_identifiers;
    hooks_libraries = [];
    control_socket = control_socket;
    loggers = loggers;
    valid_lifetime = valid_lifetime;
    min_valid_lifetime = min_valid_lifetime;
    max_valid_lifetime = max_valid_lifetime;
    renew_timer = renew_timer;
    rebind_timer = rebind_timer;
    calculate_tee_times = calculate_tee_times;
    t1_percent = t1_percent;
    t2_percent = t2_percent;
    authoritative = authoritative;
    match_client_id = match_client_id;
    server_tag = server_tag;
    next_server = next_server;
    boot_file_name = boot_file_name;
    server_hostname = server_hostname;
    ddns_send_updates = ddns_send_updates;
    ddns_override_no_update = ddns_override_no_update;
    ddns_override_client_update = ddns_override_client_update;
    ddns_replace_client_name = ddns_replace_client_name;
    ddns_generated_prefix = ddns_generated_prefix;
    ddns_qualifying_suffix = ddns_qualifying_suffix;
    ddns_use_conflict_resolution = ddns_use_conflict_resolution;
    high_availability = none;
    multi_threading = multi_threading;
    stork = none;
  })
read_dhcp4 _ = none

abbrev pub as_root : String → Json → Option Json
as_root key (object m) = get key m
as_root key _ = none

-- The configuration under the key "Dhcp4" of the root.
unfoldable pub read_dhcp4_root : Json → Option KeaDhcp4ServerSpec
read_dhcp4_root v = required read_dhcp4 (as_root "Dhcp4" v)

-- Relays name addresses, and a multi-threading section sets something.
pub record IsReadable (s : KeaDhcp4ServerSpec) : Type 0 where
  pub subnets : HaveAddresses s.subnet4
  pub networks : All (λ sn. HasAddress sn.relay × HaveAddresses sn.subnet4) s.shared_networks
  pub threads : HasSetting s.multi_threading

module _ (unmarshal : String → Option Json) where
  read_dhcp4-dhcp4_object :
      (r : Dhcp4ConfigRenderer) (server_name : String)
      → IsReadable r.spec
      → read_dhcp4 (object (dhcp4_object unmarshal r server_name)) ≡ some (kea_part r.spec)
  unfolding read_dhcp4 dhcp4_object
  read_dhcp4-dhcp4_object r server_name h = simp (
    get_laws,
    read_laws,
    read_interfaces-render_interfaces_config,
    read_database-render_database_config,
    listed-hosts_databases_objects,
    read_subnets4 r.spec.subnet4 h.subnets,
    read_shared_networks4 r.spec.shared_networks h.networks,
    read_option-render_option_data,
    read_option_def-render_option_def,
    read_client_class-render_client_classes,
    read_reservation-render_reservations,
    read_control_socket-render_control_socket,
    read_logger-render_loggers,
    read_multi_threading-render_multi_threading r.spec.multi_threading h.threads,
  )

  -- Whatever the credentials, the server name and the hooks, the DHCPv4 configuration that is
  -- rendered reads back, by the JSON names of the API structs, as the Kea part of the spec it was
  -- made from, for a spec whose relays name addresses and whose multi-threading section, if it has
  -- one, sets something: no setting of that part is lost, renamed or made up.
  pub read_dhcp4-render_json_internal :
      (r : Dhcp4ConfigRenderer) (server_name : String)
      → IsReadable r.spec
      → read_dhcp4_root (render_json_internal unmarshal r server_name) ≡ some (kea_part r.spec)
  unfolding read_dhcp4_root render_json_internal
  read_dhcp4-render_json_internal r server_name h =
      simp get_laws (read_dhcp4-dhcp4_object r server_name h)
