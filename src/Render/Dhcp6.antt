-- ===== src/Render/Dhcp6.antt =====
-- internal/kea/dhcp6_config.go: the whole DHCPv6 configuration, as the JSON value that is printed.
use kea_dhcp_operator.Base.{String, Option, List, [], ◌▸◌}
use kea_dhcp_operator.Json.{
  Json, boolean, number, text, object, Object, end, set, set_if_some, set_if_not_nil,
  set_if_not_empty, set_if_any,
}
use kea_dhcp_operator.Api.Dhcp6.{KeaDhcp6ServerSpec}
use kea_dhcp_operator.Render.Options.{
  render_option_data, render_option_def, render_client_classes, render_reservations,
}
use kea_dhcp_operator.Render.Parts.{
  render_control_socket, render_loggers, render_database_config, render_interfaces_config,
}
use kea_dhcp_operator.Render.Dhcp4.{
  DbCredentials, no_credentials, hosts_databases_objects, render_multi_threading, dhcp_hooks,
}
use kea_dhcp_operator.Render.Subnets6.{render_subnets6, render_shared_networks6}

pub record Dhcp6ConfigRenderer : Type 0 where
  pub spec : KeaDhcp6ServerSpec
  pub lease_db_creds : DbCredentials
  pub hosts_db_creds : DbCredentials
  pub hosts_dbs_creds : List DbCredentials

unfoldable pub new_dhcp6_config_renderer : KeaDhcp6ServerSpec → Dhcp6ConfigRenderer
new_dhcp6_config_renderer spec = record {
  spec = spec;
  lease_db_creds = no_credentials;
  hosts_db_creds = no_credentials;
  hosts_dbs_creds = [];
}

module _ (unmarshal : String → Option Json) where
  -- The map under "Dhcp6".
  unfoldable pub dhcp6_object : Dhcp6ConfigRenderer → String → Object
  dhcp6_object r server_name_override =
      end
      ▸ set "interfaces-config" (object (render_interfaces_config s.interfaces_config))
      ▸ set_if_some "lease-database"
          (render_database_config s.lease_database r.lease_db_creds.user r.lease_db_creds.password)
      ▸ set_if_some "hosts-database"
          (render_database_config s.hosts_database r.hosts_db_creds.user r.hosts_db_creds.password)
      ▸ set_if_any "hosts-databases" object
          (hosts_databases_objects s.hosts_databases r.hosts_dbs_creds)
      ▸ set_if_some "subnet6" (render_subnets6 s.subnet6)
      ▸ set_if_some "shared-networks" (render_shared_networks6 s.shared_networks)
      ▸ set_if_some "option-data" (render_option_data s.option_data)
      ▸ set_if_some "option-def" (render_option_def s.option_def)
      ▸ set_if_some "client-classes" (render_client_classes s.client_classes)
      ▸ set_if_some "reservations" (render_reservations s.reservations)
      ▸ set_if_any "host-reservation-identifiers" text s.host_reservation_identifiers
      ▸ set_if_any "hooks-libraries" object (
          dhcp_hooks unmarshal s.hooks_libraries s.lease_database s.high_availability
            s.control_socket server_name_override)
      ▸ set_if_some "control-socket" (render_control_socket s.control_socket)
      ▸ set_if_some "loggers" (render_loggers s.loggers)
      ▸ set_if_not_nil "preferred-lifetime" number s.preferred_lifetime
      ▸ set_if_not_nil "valid-lifetime" number s.valid_lifetime
      ▸ set_if_not_nil "min-valid-lifetime" number s.min_valid_lifetime
      ▸ set_if_not_nil "max-valid-lifetime" number s.max_valid_lifetime
      ▸ set_if_not_nil "renew-timer" number s.renew_timer
      ▸ set_if_not_nil "rebind-timer" number s.rebind_timer
      ▸ set_if_not_nil "calculate-tee-times" boolean s.calculate_tee_times
      ▸ set_if_not_nil "t1-percent" text s.t1_percent
      ▸ set_if_not_nil "t2-percent" text s.t2_percent
      ▸ set_if_not_empty "server-tag" s.server_tag
      ▸ set_if_not_nil "rapid-commit" boolean s.rapid_commit
      ▸ set_if_not_nil "ddns-send-updates" boolean s.ddns_send_updates
      ▸ set_if_not_empty "ddns-qualifying-suffix" s.ddns_qualifying_suffix
      ▸ set_if_some "multi-threading" (render_multi_threading s.multi_threading)
    where
      open r use {spec as s}

  -- The value that json.MarshalIndent prints.
  unfoldable pub render_json_internal : Dhcp6ConfigRenderer → String → Json
  render_json_internal r server_name_override =
      object (set "Dhcp6" (object (dhcp6_object r server_name_override)) end)

  unfoldable pub render_json : Dhcp6ConfigRenderer → Json
  unfolding render_json_internal
  render_json r = render_json_internal r ""

  unfoldable pub render_json_with_server_name : Dhcp6ConfigRenderer → String → Json
  unfolding render_json_internal
  render_json_with_server_name r server_name = render_json_internal r server_name
