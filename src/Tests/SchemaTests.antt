-- ===== src/Tests/SchemaTests.antt =====
-- Witnesses of the round trips between a spec and its configuration.
use kea_dhcp_operator.Base.{String, ◌≡◌, refl, Option, none, some, map}
use kea_dhcp_operator.Base.{false, true, []}
use kea_dhcp_operator.Json.{Json, object}
use kea_dhcp_operator.Render.Dhcp4.{Dhcp4ConfigRenderer, render_json_internal}
use kea_dhcp_operator.Render.Hooks.{mysql_hook_lib, pgsql_hook_lib}
use kea_dhcp_operator.Render.Options.{option_object, option_def_object}
use kea_dhcp_operator.Schema.Dhcp4.{
  IsReadable, kea_part, read_dhcp4_root, read_dhcp4-render_json_internal,
}
use kea_dhcp_operator.Schema.Ha.{without_address}
use kea_dhcp_operator.Schema.Dhcp4Hooks.{
  dhcp4_ha, dhcp4_ha-render_json_internal, dhcp4_loads, dhcp4_loads-render_json_internal,
}
use kea_dhcp_operator.Schema.Options.{
  read_option, read_option-option_object, read_option_def, read_option_def-option_def_object,
}
use kea_dhcp_operator.Schema.Parts.{HasAddress}
use kea_dhcp_operator.Tests.Parts.{gateway, routers, colour}
use kea_dhcp_operator.Tests.Specs.{ha, spec4}

-- A parser of JSON that accepts nothing.
abbrev reject : String → Option Json
reject _ = none

abbrev renderer : Dhcp4ConfigRenderer
renderer = record {
  spec = spec4;
  lease_db_creds = record { user = "kea"; password = "secret" };
  hosts_db_creds = record { user = ""; password = "" };
  hosts_dbs_creds = [];
}

abbrev lone : Dhcp4ConfigRenderer
lone = record renderer { spec = record spec4 { high_availability = none } }

gateway_named : HasAddress (some gateway)
gateway_named e = cc

readable : IsReadable spec4
readable = record {
  subnets = (gateway_named, tt);
  networks = ((gateway_named, (gateway_named, tt)), tt);
  threads = refl;
}

dhcp4_example :
    read_dhcp4_root (render_json_internal reject renderer "kea-2") ≡ some (kea_part spec4)
dhcp4_example = read_dhcp4-render_json_internal reject renderer "kea-2" readable

ha_example :
    dhcp4_ha (render_json_internal reject renderer "kea-2")
    ≡ some (record ha { this_server_name = "kea-2"; peers = map without_address ha.peers })
ha_example = dhcp4_ha-render_json_internal reject renderer "kea-2" (refl, tt) refl refl

loads_example :
    (dhcp4_loads mysql_hook_lib (render_json_internal reject renderer "kea-2") ≡ true)
    × (dhcp4_loads pgsql_hook_lib (render_json_internal reject renderer "kea-2") ≡ false)
loads_example = dhcp4_loads-render_json_internal reject renderer "kea-2" (refl, tt) (refl, tt)

option_example : read_option (object (option_object routers)) ≡ some routers
option_example = read_option-option_object routers

option_def_example : read_option_def (object (option_def_object colour)) ≡ some colour
option_def_example = read_option_def-option_def_object colour
