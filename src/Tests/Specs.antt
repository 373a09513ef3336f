-- ===== src/Tests/Specs.antt =====
-- Test data: databases, high availability and whole resources.
use kea_dhcp_operator.Base.{true, false, none, some, [], ◌∷◌}
use kea_dhcp_operator.Base.Int.{pos}
use kea_dhcp_operator.Json.{null}
use kea_dhcp_operator.Api.Common.{
  ComponentStatus, ControlSocket, DatabaseConfig, HookLibrary, LoggerConfig, StorkAgentConfig,
}
use kea_dhcp_operator.Api.ControlAgent.{
  AgentControlSockets, AuthClient, AuthConfig, KeaControlAgentSpec,
}
use kea_dhcp_operator.Api.Ddns.{DdnsDomain, DnsServer, KeaDhcpDdnsSpec, TsigKey}
use kea_dhcp_operator.Api.Dhcp4.{KeaDhcp4ServerSpec, MultiThreadingConfig}
use kea_dhcp_operator.Api.Dhcp6.{KeaDhcp6ServerSpec}
use kea_dhcp_operator.Api.Ha.{HaConfig, HaMultiThreading, HaPeer}
use kea_dhcp_operator.Api.Server.{KeaServer}
use kea_dhcp_operator.Api.Stork.{KeaStorkServer}
use kea_dhcp_operator.Tests.Parts.{routers, colour, voip, subnet4, campus, subnet6}

abbrev pub mysql : DatabaseConfig
mysql = record {
  kind = "mysql";
  persist = none;
  name = "kea";
  host = "db";
  port = some (pos 3306);
  credentials_secret_ref = some (record { name = "db" });
  connect_timeout = none;
  max_reconnect_tries = none;
  reconnect_wait_time = none;
  on_fail = "";
  retry_on_startup = none;
  lfc_interval = none;
  max_row_errors = none;
  read_only = none;
  read_timeout = none;
  write_timeout = none;
  tcp_user_timeout = none;
}

abbrev pub kea1 : HaPeer
kea1 = record {
  name = "kea-1";
  url = "http://10.0.0.1:8000/";
  role = "primary";
  address = "";
  auto_failover = none;
}

abbrev pub kea2 : HaPeer
kea2 = record {
  name = "kea-2";
  url = "http://10.0.0.2:8000/";
  role = "standby";
  address = "";
  auto_failover = some true;
}

abbrev pub threads : HaMultiThreading
threads = record {
  enable_multi_threading = some true;
  http_client_threads = none;
  http_listener_threads = none;
}

abbrev pub ha : HaConfig
ha = record {
  this_server_name = "kea-1";
  mode = "hot-standby";
  heartbeat_delay = none;
  max_response_delay = none;
  max_ack_delay = none;
  max_unacked_clients = none;
  peers = kea1 ∷ kea2 ∷ [];
  tls = none;
  send_lease_updates = none;
  sync_leases = none;
  sync_timeout = none;
  sync_page_limit = none;
  delayed_updates_limit = none;
  multi_threading = some threads;
}

abbrev pub socket : ControlSocket
socket = record {
  socket_type = "http";
  socket_name = "";
  socket_port = some (pos 8000);
  socket_address = "0.0.0.0";
}

abbrev pub logger : LoggerConfig
logger = record { name = "kea-dhcp4"; severity = "INFO"; debug_level = none; output_options = [] }

abbrev pub multi_threading : MultiThreadingConfig
multi_threading = record {
  enable_multi_threading = none;
  thread_pool_size = some (pos 4);
  packet_queue_size = none;
}

abbrev pub stat_hook : HookLibrary
stat_hook = record { library = "libdhcp_stat_cmds.so"; parameters = none }

abbrev pub spec4 : KeaDhcp4ServerSpec
spec4 = record {
  container = record {
    image = "";
    image_pull_policy = "";
    resources = null;
    image_pull_secrets = [];
  };
  replicas = none;
  placement = none;
  host_network = none;
  interfaces_config = record {
    interfaces = "eth0" ∷ [];
    dhcp_socket_type = "";
    outbound_interface = "";
    re_detect = none;
    service_sockets_require_all = none;
    service_sockets_max_retries = none;
    service_sockets_retry_wait_time = none;
  };
  lease_database = some mysql;
  hosts_database = none;
  hosts_databases = mysql ∷ [];
  subnet4 = subnet4 ∷ [];
  shared_networks = campus ∷ [];
  option_data = routers ∷ [];
  option_def = colour ∷ [];
  client_classes = voip ∷ [];
  reservations = [];
  host_reservation_identifiers = [];
  hooks_libraries = stat_hook ∷ [];
  control_socket = some socket;
  loggers = logger ∷ [];
  valid_lifetime = some (pos 3600);
  min_valid_lifetime = none;
  max_valid_lifetime = none;
  renew_timer = none;
  rebind_timer = none;
  calculate_tee_times = none;
  t1_percent = none;
  t2_percent = none;
  authoritative = none;
  match_client_id = none;
  server_tag = "";
  next_server = "";
  boot_file_name = "";
  server_hostname = "";
  ddns_send_updates = none;
  ddns_override_no_update = none;
  ddns_override_client_update = none;
  ddns_replace_client_name = "";
  ddns_generated_prefix = "";
  ddns_qualifying_suffix = "";
  ddns_use_conflict_resolution = none;
  high_availability = some ha;
  multi_threading = some multi_threading;
  stork = none;
}

abbrev pub spec6 : KeaDhcp6ServerSpec
spec6 = record {
  container = record {
    image = "";
    image_pull_policy = "";
    resources = null;
    image_pull_secrets = [];
  };
  replicas = none;
  placement = none;
  host_network = none;
  interfaces_config = record {
    interfaces = "eth0" ∷ [];
    dhcp_socket_type = "";
    outbound_interface = "";
    re_detect = none;
    service_sockets_require_all = none;
    service_sockets_max_retries = none;
    service_sockets_retry_wait_time = none;
  };
  lease_database = some mysql;
  hosts_database = none;
  hosts_databases = [];
  subnet6 = subnet6 ∷ [];
  shared_networks = [];
  option_data = [];
  option_def = [];
  client_classes = [];
  reservations = [];
  host_reservation_identifiers = [];
  hooks_libraries = [];
  control_socket = some socket;
  loggers = [];
  preferred_lifetime = none;
  valid_lifetime = none;
  min_valid_lifetime = none;
  max_valid_lifetime = none;
  renew_timer = none;
  rebind_timer = none;
  calculate_tee_times = none;
  t1_percent = none;
  t2_percent = none;
  server_tag = "";
  rapid_commit = none;
  ddns_send_updates = none;
  ddns_qualifying_suffix = "";
  high_availability = some ha;
  multi_threading = none;
  stork = none;
}

abbrev pub tsig : TsigKey
tsig = record {
  name = "k1";
  algorithm = "HMAC-SHA256";
  digest_bits = none;
  secret_ref = some (record { name = "tsig"; key = "secret" });
}

abbrev pub dns : DnsServer
dns = record { ip_address = "10.0.0.53"; port = none }

abbrev pub zone : DdnsDomain
zone = record { name = "example.org."; key_name = "k1"; dns_servers = dns ∷ [] }

abbrev pub ddns_spec : KeaDhcpDdnsSpec
ddns_spec = record {
  container = record {
    image = "";
    image_pull_policy = "";
    resources = null;
    image_pull_secrets = [];
  };
  replicas = none;
  placement = none;
  ip_address = "127.0.0.1";
  port = some (pos 53001);
  dns_server_timeout = none;
  ncr_protocol = "";
  ncr_format = "";
  tsig_keys = tsig ∷ [];
  forward_ddns = some (record { ddns_domains = zone ∷ [] });
  reverse_ddns = none;
  control_socket = none;
  hooks_libraries = [];
  loggers = logger ∷ [];
}

abbrev pub operator_client : AuthClient
operator_client = record {
  user = "operator";
  password_secret_key_ref = some (record { name = "agent"; key = "password" });
}

abbrev pub agent_auth : AuthConfig
agent_auth = record {
  kind = "basic";
  realm = "";
  clients = operator_client ∷ [];
  credentials_secret_ref = none;
}

abbrev pub agent_sockets : AgentControlSockets
agent_sockets = record { dhcp4 = some socket; dhcp6 = none; d2 = none }

abbrev pub agent_spec : KeaControlAgentSpec
agent_spec = record {
  container = record {
    image = "";
    image_pull_policy = "";
    resources = null;
    image_pull_secrets = [];
  };
  replicas = none;
  placement = none;
  http_host = "0.0.0.0";
  http_port = some (pos 8000);
  tls = some (record { secret_ref = record { name = "tls" }; cert_required = some true });
  control_sockets = some agent_sockets;
  authentication = some agent_auth;
  hooks_libraries = [];
  loggers = [];
}

abbrev pub stork : StorkAgentConfig
stork = record {
  enabled = true;
  image = "";
  image_pull_policy = "";
  resources = null;
  server_url = "http://stork:8080";
  server_token_secret_ref = none;
  stork_server_ref = none;
  port = none;
  prometheus_port = none;
  env = [];
}

abbrev pub stork_server : KeaStorkServer
stork_server = record {
  meta = record { name = "stork"; namespace = "net"; generation = pos 1 };
  spec = record {
    container = record {
      image = "";
      image_pull_policy = "";
      resources = null;
      image_pull_secrets = [];
    };
    replicas = none;
    database = record {
      host = "";
      port = none;
      name = "";
      credentials_secret_ref = record { name = "" };
      ssl_mode = "";
    };
    port = none;
    enable_metrics = none;
    placement = none;
  };
  status = record {
    component = record {
      conditions = [];
      phase = "";
      observed_generation = pos 0;
      config_map_ref = "";
      ready_replicas = pos 0;
      config_hash = "";
    };
    url = "";
    admin_secret_name = "";
    server_token_secret_name = "";
  };
}

abbrev pub component : ComponentStatus
component = record {
  conditions = [];
  phase = "Pending";
  observed_generation = pos 0;
  config_map_ref = "";
  ready_replicas = pos 0;
  config_hash = "";
}

abbrev pub server : KeaServer
server = record {
  meta = record { name = "site"; namespace = "net"; generation = pos 3 };
  spec = record {
    dhcp4 = some spec4;
    dhcp6 = none;
    control_agent = none;
    dhcp_ddns = none;
    stork_server = none;
  };
  status = record {
    conditions = [];
    observed_generation = pos 0;
    phase = "Pending";
    dhcp4_ready = false;
    dhcp6_ready = false;
    control_agent_ready = false;
    dhcp_ddns_ready = false;
    stork_server_ready = false;
  };
}
