-- ===== src/Tests/Dhcp4Tests.antt =====
-- Witnesses of the DHCPv4 controller and of the resource builders.
use kea_dhcp_operator.Base.Decimal.{decimal, decimal_ℤ}
use kea_dhcp_operator.Resources.Services.{build_headless_service}
use kea_dhcp_operator.Tests.WorkloadTests.{stateful4, control}
use kea_dhcp_operator.Resources.StatefulSet.{build_stateful_set}
use mathlib.Core.Option
use kea_dhcp_operator.Base.{
  String, ◌≡◌, ◌≢◌, refl, Option, none, some, map, [], ◌==◌, if◌then◌else◌, get_elem?, arith, ◌∷◌,
}
use kea_dhcp_operator.Base.Int.{pos}
use kea_dhcp_operator.Json.{Json}
use kea_dhcp_operator.Api.Ha.{HaConfig, HaPeer}
use kea_dhcp_operator.Controller.Dhcp4.Credentials.{credentials}
use kea_dhcp_operator.Controller.Dhcp4.HaConfigs.{config_at, dhcp4_ha-config_at}
use kea_dhcp_operator.Controller.Dhcp4.Nad.{
  Ipv4, compute_nad_addresses, compute_nad_addresses-distinct,
}
use kea_dhcp_operator.Controller.Dhcp4.Peers.{fill_peer_urls, peers-fill_peer_urls}
use kea_dhcp_operator.Controller.Dhcp4.Placeholders.{credentials_of, hosts_databases-credentials}
use kea_dhcp_operator.Render.Dhcp4.{Dhcp4ConfigRenderer, hosts_databases_objects}
use kea_dhcp_operator.Render.Parts.{database_object}
use kea_dhcp_operator.Resources.Names.{stateful_set_name, headless_service_name}
use kea_dhcp_operator.Resources.Stork.{StorkSidecarParams, sidecar_params}
use kea_dhcp_operator.Schema.Dhcp4Hooks.{dhcp4_ha}
use kea_dhcp_operator.Schema.Ha.{without_address}
use kea_dhcp_operator.Tests.Specs.{ha, kea2, mysql, spec4, stork}

-- The second peer has no URL of its own.
abbrev unaddressed : HaPeer
unaddressed = record kea2 { url = "" }

abbrev unaddressed_ha : HaConfig
unaddressed_ha = record ha { peers = kea2 ∷ unaddressed ∷ [] }

peers_example :
    (Option.map
        (λ (h : HaConfig). get_elem? h.peers 1)
        (fill_peer_urls "net" "site" "dhcp4" (pos 8000) (some unaddressed_ha))
      ≡ some (
          some (record kea2 {
            url = "http://site-dhcp4-1.site-dhcp4-hl.net.svc.cluster.local:8000/";
          })))
    × ((build_stateful_set stateful4).spec.service_name
        ≡ (build_headless_service control).meta.name)
unfolding build_stateful_set stateful_set_name headless_service_name decimal decimal_ℤ
peers_example = peers-fill_peer_urls (pos 8000) stateful4 control unaddressed_ha 1 refl refl

-- A parser that knows one subnet.
abbrev lan : Ipv4
lan = record { byte0 = 192; byte1 = 168; byte2 = 50; byte3 = 0 }

abbrev parse : String → Option Ipv4
parse cidr = if cidr == "192.168.50.0/24" then some lan else none

distinct_addresses_example :
    get_elem? (compute_nad_addresses parse "192.168.50.0/24" 2) 0
    ≢ get_elem? (compute_nad_addresses parse "192.168.50.0/24" 2) 1
distinct_addresses_example =
    compute_nad_addresses-distinct parse "192.168.50.0/24" 2 0 1 lan refl refl (omega arith)
      (omega arith) (omega arith) (omega arith)

credentials_example :
    get_elem?
      (hosts_databases_objects spec4.hosts_databases (credentials spec4).1.hosts_dbs_creds)
      0
    ≡ some (
        database_object mysql
          (credentials_of 0 mysql.credentials_secret_ref).user
          (credentials_of 0 mysql.credentials_secret_ref).password)
credentials_example = hosts_databases-credentials spec4 0 mysql refl

-- A client over ConfigMaps in memory.
abbrev reject : String → Option Json
reject _ = none

abbrev renderer : Dhcp4ConfigRenderer
renderer = record {
  spec = spec4;
  lease_db_creds = record { user = ""; password = "" };
  hosts_db_creds = record { user = ""; password = "" };
  hosts_dbs_creds = [];
}

config_example :
    dhcp4_ha (config_at reject renderer ha.peers 1)
    ≡ some (record ha { this_server_name = "kea-2"; peers = map without_address ha.peers })
config_example = dhcp4_ha-config_at reject renderer ha.peers 1 (refl, tt) refl refl refl refl

abbrev agent : StorkSidecarParams
agent = sidecar_params stork "secret"
