-- ===== src/Tests/Parts.antt =====
-- Test data: the parts of subnets, and subnets.
use kea_dhcp_operator.Base.{none, some, [], ◌∷◌}
use kea_dhcp_operator.Base.Int.{pos}
use kea_dhcp_operator.Api.Common.{ClientClass, OptionData, OptionDef, RelayInfo, Reservation}
use kea_dhcp_operator.Api.Dhcp4.{Pool4, SharedNetwork4, Subnet4}
use kea_dhcp_operator.Api.Dhcp6.{Pool6, SharedNetwork6, Subnet6}

abbrev pub routers : OptionData
routers = record {
  name = "routers";
  code = some (pos 3);
  space = "";
  csv_format = none;
  data_text = "10.0.0.1";
  always_send = none;
  never_send = none;
}

abbrev pub colour : OptionDef
colour = record {
  name = "colour";
  code = pos 222;
  kind = "string";
  array = none;
  record_types = "";
  encapsulate = "";
  space = "";
}

abbrev pub voip : ClientClass
voip = record {
  name = "VoIP";
  test = "substring(option[60].hex,0,6) == 'Aastra'";
  option_data = routers ∷ [];
  only_if_required = none;
  valid_lifetime = none;
  min_valid_lifetime = none;
  max_valid_lifetime = none;
}

abbrev pub printer : Reservation
printer = record {
  hw_address = "1a:1b:1c:1d:1e:1f";
  client_id = "";
  duid = "";
  circuit_id = "";
  flex_id = "";
  hostname = "printer";
  ip_address = "10.0.0.9";
  ip_addresses = [];
  prefixes = [];
  option_data = [];
  client_classes = [];
  next_server = "";
  boot_file_name = "";
  server_hostname = "";
}

abbrev pub pool4 : Pool4
pool4 = record {
  pool = "10.0.0.10 - 10.0.0.99";
  option_data = routers ∷ [];
  client_class = "";
  require_client_classes = [];
}

abbrev pub gateway : RelayInfo
gateway = record { ip_addresses = "10.0.0.1" ∷ [] }

abbrev pub subnet4 : Subnet4
subnet4 = record {
  id = pos 1;
  subnet = "10.0.0.0/24";
  pools = pool4 ∷ [];
  option_data = [];
  reservations = printer ∷ [];
  client_class = "";
  require_client_classes = [];
  interface = "";
  relay = some gateway;
  valid_lifetime = some (pos 600);
  min_valid_lifetime = none;
  max_valid_lifetime = none;
  renew_timer = none;
  rebind_timer = none;
  authoritative = none;
  reservation_mode = "";
  match_client_id = none;
  next_server = "";
  boot_file_name = "";
  server_hostname = "";
  user_context = "";
}

abbrev pub campus : SharedNetwork4
campus = record {
  name = "campus";
  subnet4 = subnet4 ∷ [];
  interface = "";
  option_data = [];
  relay = some gateway;
  client_class = "";
  require_client_classes = [];
  valid_lifetime = none;
  min_valid_lifetime = none;
  max_valid_lifetime = none;
  renew_timer = none;
  rebind_timer = none;
  authoritative = none;
}

abbrev pub pool6 : Pool6
pool6 = record {
  pool = "2001:db8::10-2001:db8::99";
  option_data = [];
  client_class = "";
  require_client_classes = [];
}

abbrev pub subnet6 : Subnet6
subnet6 = record {
  id = pos 1;
  subnet = "2001:db8::/64";
  pools = pool6 ∷ [];
  pd_pools = [];
  option_data = [];
  reservations = [];
  client_class = "";
  require_client_classes = [];
  interface = "";
  interface_id = "";
  relay = some gateway;
  preferred_lifetime = none;
  valid_lifetime = none;
  min_valid_lifetime = none;
  max_valid_lifetime = none;
  renew_timer = none;
  rebind_timer = none;
  rapid_commit = none;
  reservation_mode = "";
}

abbrev pub campus6 : SharedNetwork6
campus6 = record {
  name = "campus";
  subnet6 = subnet6 ∷ [];
  interface = "";
  interface_id = "";
  option_data = [];
  relay = some gateway;
  client_class = "";
  preferred_lifetime = none;
  valid_lifetime = none;
  renew_timer = none;
  rebind_timer = none;
  rapid_commit = none;
}
