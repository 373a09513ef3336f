-- ===== src/Render/Parts.antt =====
-- internal/kea/config.go and the interfaces section: relays, sockets, loggers and databases.
use kea_dhcp_operator.Base.{String, Option, none, some, List, is_empty, ◌▸◌, if◌then◌else◌}
use kea_dhcp_operator.Json.{
  Json, boolean, number, text, object, Object, end, set, set_if_not_nil, set_if_not_empty,
  set_if_any, array_of, any_of,
}
use kea_dhcp_operator.Api.Common.{
  RelayInfo, ControlSocket, LogOutputOption, LoggerConfig, DatabaseConfig, InterfacesConfig,
}

-- `if x.Relay != nil && len(x.Relay.IPAddresses) > 0 { … }` of the subnets and shared networks.
unfoldable pub render_relay : Option RelayInfo → Option Json
render_relay none = none
render_relay (some relay) =
    if is_empty relay.ip_addresses
    then none
    else some (object (set "ip-addresses" (array_of text relay.ip_addresses) end))

unfoldable pub control_socket_object : ControlSocket → Object
control_socket_object cs =
    end
    ▸ set "socket-type" (text cs.socket_type)
    ▸ set_if_not_empty "socket-name" cs.socket_name
    ▸ set_if_not_nil "socket-port" number cs.socket_port
    ▸ set_if_not_empty "socket-address" cs.socket_address

unfoldable pub render_control_socket : Option ControlSocket → Option Json
render_control_socket none = none
render_control_socket (some cs) = some (object (control_socket_object cs))

unfoldable pub log_output_object : LogOutputOption → Object
log_output_object o =
    end
    ▸ set "output" (text o.output)
    ▸ set_if_not_nil "maxsize" number o.maxsize
    ▸ set_if_not_nil "maxver" number o.maxver
    ▸ set_if_not_nil "flush" boolean o.flush
    ▸ set_if_not_empty "pattern" o.pattern

unfoldable pub logger_object : LoggerConfig → Object
logger_object l =
    end
    ▸ set "name" (text l.name)
    ▸ set_if_not_empty "severity" l.severity
    ▸ set_if_not_nil "debuglevel" number l.debug_level
    ▸ set_if_any "output-options" (λ o. object (log_output_object o)) l.output_options

unfoldable pub render_loggers : List LoggerConfig → Option Json
render_loggers = any_of (λ l. object (logger_object l))

unfoldable pub database_object : DatabaseConfig → String → String → Object
database_object db resolved_user resolved_password =
    end
    ▸ set "type" (text db.kind)
    ▸ set_if_not_nil "persist" boolean db.persist
    ▸ set_if_not_empty "name" db.name
    ▸ set_if_not_empty "host" db.host
    ▸ set_if_not_nil "port" number db.port
    ▸ set_if_not_empty "user" resolved_user
    ▸ set_if_not_empty "password" resolved_password
    ▸ set_if_not_nil "connect-timeout" number db.connect_timeout
    ▸ set_if_not_nil "max-reconnect-tries" number db.max_reconnect_tries
    ▸ set_if_not_nil "reconnect-wait-time" number db.reconnect_wait_time
    ▸ set_if_not_empty "on-fail" db.on_fail
    ▸ set_if_not_nil "retry-on-startup" boolean db.retry_on_startup
    ▸ set_if_not_nil "lfc-interval" number db.lfc_interval
    ▸ set_if_not_nil "max-row-errors" number db.max_row_errors
    ▸ set_if_not_nil "readonly" boolean db.read_only
    ▸ set_if_not_nil "read-timeout" number db.read_timeout
    ▸ set_if_not_nil "write-timeout" number db.write_timeout
    ▸ set_if_not_nil "tcp-user-timeout" number db.tcp_user_timeout

unfoldable pub render_database_config : Option DatabaseConfig → String → String → Option Json
render_database_config none resolved_user resolved_password = none
render_database_config (some db) resolved_user resolved_password =
    some (object (database_object db resolved_user resolved_password))

unfoldable pub render_interfaces_config : InterfacesConfig → Object
render_interfaces_config ic =
    end
    ▸ set "interfaces" (array_of text ic.interfaces)
    ▸ set_if_not_empty "dhcp-socket-type" ic.dhcp_socket_type
    ▸ set_if_not_empty "outbound-interface" ic.outbound_interface
    ▸ set_if_not_nil "re-detect" boolean ic.re_detect
    ▸ set_if_not_nil "service-sockets-require-all" boolean ic.service_sockets_require_all
    ▸ set_if_not_nil "service-sockets-max-retries" number ic.service_sockets_max_retries
    ▸ set_if_not_nil "service-sockets-retry-wait-time" number ic.service_sockets_retry_wait_time
