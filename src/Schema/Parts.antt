-- ===== src/Schema/Parts.antt =====
-- Sockets, loggers, databases, interfaces and relays are read back from their rendering by the JSON
-- names that the structs of api/v1alpha1/common_types.go give their fields.
use kea_dhcp_operator.Base.{String, ◌≡◌, ◌≢◌, refl, Option, none, some, List, [], ◌∷◌, ◌>>=◌}
use kea_dhcp_operator.Json.{
  Json, object, get, get_laws, read_laws, optional_text, optional, listed, listed-any_of, required,
  as_list, as_text, as_number, as_boolean, any_of,
}
use kea_dhcp_operator.Api.Common.{
  RelayInfo, ControlSocket, LogOutputOption, LoggerConfig, DatabaseConfig, InterfacesConfig,
}
use kea_dhcp_operator.Render.Parts.{
  render_relay, control_socket_object, render_control_socket, log_output_object, logger_object,
  render_loggers, database_object, render_interfaces_config,
}

unfoldable pub read_control_socket : Json → Option ControlSocket
read_control_socket (object m) = do
  socket_type ← required as_text (get "socket-type" m)
  socket_name ← optional_text (get "socket-name" m)
  socket_port ← optional as_number (get "socket-port" m)
  socket_address ← optional_text (get "socket-address" m)
  some (record {
    socket_type = socket_type;
    socket_name = socket_name;
    socket_port = socket_port;
    socket_address = socket_address;
  })
read_control_socket _ = none

-- Every ControlSocket is read back from its rendering.
pub read_control_socket-control_socket_object :
    (cs : ControlSocket) → read_control_socket (object (control_socket_object cs)) ≡ some cs
unfolding read_control_socket control_socket_object
read_control_socket-control_socket_object cs = simp (get_laws, read_laws)

pub read_control_socket-render_control_socket :
    (cs : Option ControlSocket) → optional read_control_socket (render_control_socket cs) ≡ some cs
unfolding render_control_socket optional
read_control_socket-render_control_socket none = refl
read_control_socket-render_control_socket (some cs) =
    rw (read_control_socket-control_socket_object cs)

unfoldable pub read_log_output : Json → Option LogOutputOption
read_log_output (object m) = do
  output ← required as_text (get "output" m)
  maxsize ← optional as_number (get "maxsize" m)
  maxver ← optional as_number (get "maxver" m)
  flush ← optional as_boolean (get "flush" m)
  pattern ← optional_text (get "pattern" m)
  some (record {
    output = output;
    maxsize = maxsize;
    maxver = maxver;
    flush = flush;
    pattern = pattern;
  })
read_log_output _ = none

-- Every LogOutputOption is read back from its rendering.
pub read_log_output-log_output_object :
    (o : LogOutputOption) → read_log_output (object (log_output_object o)) ≡ some o
unfolding read_log_output log_output_object
read_log_output-log_output_object o = simp (get_laws, read_laws)

read_log_outputs :
    (os : List LogOutputOption)
    → listed read_log_output (any_of (λ o. object (log_output_object o)) os) ≡ some os
read_log_outputs =
    listed-any_of read_log_output (λ o. object (log_output_object o))
      read_log_output-log_output_object

unfoldable pub read_logger : Json → Option LoggerConfig
read_logger (object m) = do
  name ← required as_text (get "name" m)
  severity ← optional_text (get "severity" m)
  debug_level ← optional as_number (get "debuglevel" m)
  output_options ← listed read_log_output (get "output-options" m)
  some (record {
    name = name;
    severity = severity;
    debug_level = debug_level;
    output_options = output_options;
  })
read_logger _ = none

-- Every LoggerConfig is read back from its rendering.
pub read_logger-logger_object : (l : LoggerConfig) → read_logger (object (logger_object l)) ≡ some l
unfolding read_logger logger_object
read_logger-logger_object l = simp (get_laws, read_laws, read_log_outputs)

pub read_logger-render_loggers :
    (loggers : List LoggerConfig) → listed read_logger (render_loggers loggers) ≡ some loggers
unfolding render_loggers
read_logger-render_loggers =
    listed-any_of read_logger (λ l. object (logger_object l)) read_logger-logger_object

unfoldable pub read_database : Json → Option DatabaseConfig
read_database (object m) = do
  kind ← required as_text (get "type" m)
  persist ← optional as_boolean (get "persist" m)
  name ← optional_text (get "name" m)
  host ← optional_text (get "host" m)
  port ← optional as_number (get "port" m)
  connect_timeout ← optional as_number (get "connect-timeout" m)
  max_reconnect_tries ← optional as_number (get "max-reconnect-tries" m)
  reconnect_wait_time ← optional as_number (get "reconnect-wait-time" m)
  on_fail ← optional_text (get "on-fail" m)
  retry_on_startup ← optional as_boolean (get "retry-on-startup" m)
  lfc_interval ← optional as_number (get "lfc-interval" m)
  max_row_errors ← optional as_number (get "max-row-errors" m)
  read_only ← optional as_boolean (get "readonly" m)
  read_timeout ← optional as_number (get "read-timeout" m)
  write_timeout ← optional as_number (get "write-timeout" m)
  tcp_user_timeout ← optional as_number (get "tcp-user-timeout" m)
  some (record {
    kind = kind;
    persist = persist;
    name = name;
    host = host;
    port = port;
    credentials_secret_ref = none;
    connect_timeout = connect_timeout;
    max_reconnect_tries = max_reconnect_tries;
    reconnect_wait_time = reconnect_wait_time;
    on_fail = on_fail;
    retry_on_startup = retry_on_startup;
    lfc_interval = lfc_interval;
    max_row_errors = max_row_errors;
    read_only = read_only;
    read_timeout = read_timeout;
    write_timeout = write_timeout;
    tcp_user_timeout = tcp_user_timeout;
  })
read_database _ = none

-- A database section is read back from its rendering, whatever the credentials, but for the name of
-- the Secret, which is not rendered.
pub read_database-database_object :
    (db : DatabaseConfig) (user password : String)
    → read_database (object (database_object db user password))
      ≡ some (record db { credentials_secret_ref = none })
unfolding read_database database_object
read_database-database_object db user password = simp (get_laws, read_laws)

unfoldable pub read_interfaces : Json → Option InterfacesConfig
read_interfaces (object m) = do
  interfaces ← required (as_list as_text) (get "interfaces" m)
  dhcp_socket_type ← optional_text (get "dhcp-socket-type" m)
  outbound_interface ← optional_text (get "outbound-interface" m)
  re_detect ← optional as_boolean (get "re-detect" m)
  service_sockets_require_all ← optional as_boolean (get "service-sockets-require-all" m)
  service_sockets_max_retries ← optional as_number (get "service-sockets-max-retries" m)
  service_sockets_retry_wait_time ← optional as_number (get "service-sockets-retry-wait-time" m)
  some (record {
    interfaces = interfaces;
    dhcp_socket_type = dhcp_socket_type;
    outbound_interface = outbound_interface;
    re_detect = re_detect;
    service_sockets_require_all = service_sockets_require_all;
    service_sockets_max_retries = service_sockets_max_retries;
    service_sockets_retry_wait_time = service_sockets_retry_wait_time;
  })
read_interfaces _ = none

-- Every InterfacesConfig is read back from its rendering.
pub read_interfaces-render_interfaces_config :
    (ic : InterfacesConfig) → read_interfaces (object (render_interfaces_config ic)) ≡ some ic
unfolding read_interfaces render_interfaces_config
read_interfaces-render_interfaces_config ic = simp (get_laws, read_laws)

unfoldable pub read_relay : Json → Option RelayInfo
read_relay (object m) = do
  ip_addresses ← listed as_text (get "ip-addresses" m)
  some (record { ip_addresses = ip_addresses })
read_relay _ = none

-- The relay of a subnet names an address, or there is none.
abbrev pub HasAddress : Option RelayInfo → Type 0
HasAddress none = Unit
HasAddress (some relay) = relay.ip_addresses ≢ []

pub read_relay-render_relay :
    (relay : Option RelayInfo)
    → HasAddress relay
    → optional read_relay (render_relay relay) ≡ some relay
unfolding render_relay read_relay optional listed
read_relay-render_relay none h = refl
read_relay-render_relay (some relay) h = some_address relay.ip_addresses h
  where
    some_address :
        (xs : List String)
        → xs ≢ []
        → optional read_relay (render_relay (some (record { ip_addresses = xs })))
          ≡ some (some (record { ip_addresses = xs }))
    some_address [] ne = absurd (ne refl)
    some_address (x ∷ xs) ne = simp (get_laws, read_laws)
