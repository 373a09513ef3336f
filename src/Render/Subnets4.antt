-- ===== src/Render/Subnets4.antt =====
-- internal/kea/dhcp4_config.go: subnets, pools and shared networks.
use kea_dhcp_operator.Base.{Option, List, ◌▸◌}
use kea_dhcp_operator.Json.{
  Json, boolean, number, text, object, Object, end, set, set_if_some, set_if_not_nil,
  set_if_not_empty, set_if_any, any_of,
}
use kea_dhcp_operator.Api.Dhcp4.{Pool4, Subnet4, SharedNetwork4}
use kea_dhcp_operator.Render.Options.{render_option_data, render_reservations}
use kea_dhcp_operator.Render.Parts.{render_relay}

unfoldable pub render_pool4 : Pool4 → Object
render_pool4 p =
    end
    ▸ set "pool" (text p.pool)
    ▸ set_if_some "option-data" (render_option_data p.option_data)
    ▸ set_if_not_empty "client-class" p.client_class
    ▸ set_if_any "require-client-classes" text p.require_client_classes

unfoldable pub render_subnet4 : Subnet4 → Object
render_subnet4 sub =
    end
    ▸ set "id" (number sub.id)
    ▸ set "subnet" (text sub.subnet)
    ▸ set_if_any "pools" (λ x. object (render_pool4 x)) sub.pools
    ▸ set_if_some "option-data" (render_option_data sub.option_data)
    ▸ set_if_some "reservations" (render_reservations sub.reservations)
    ▸ set_if_not_empty "client-class" sub.client_class
    ▸ set_if_any "require-client-classes" text sub.require_client_classes
    ▸ set_if_not_empty "interface" sub.interface
    ▸ set_if_some "relay" (render_relay sub.relay)
    ▸ set_if_not_nil "valid-lifetime" number sub.valid_lifetime
    ▸ set_if_not_nil "min-valid-lifetime" number sub.min_valid_lifetime
    ▸ set_if_not_nil "max-valid-lifetime" number sub.max_valid_lifetime
    ▸ set_if_not_nil "renew-timer" number sub.renew_timer
    ▸ set_if_not_nil "rebind-timer" number sub.rebind_timer
    ▸ set_if_not_nil "authoritative" boolean sub.authoritative
    ▸ set_if_not_empty "reservation-mode" sub.reservation_mode
    ▸ set_if_not_nil "match-client-id" boolean sub.match_client_id
    ▸ set_if_not_empty "next-server" sub.next_server
    ▸ set_if_not_empty "boot-file-name" sub.boot_file_name
    ▸ set_if_not_empty "server-hostname" sub.server_hostname
    ▸ set_if_not_empty "user-context" sub.user_context

unfoldable pub shared_network4_object : SharedNetwork4 → Object
shared_network4_object sn =
    end
    ▸ set "name" (text sn.name)
    ▸ set_if_any "subnet4" (λ x. object (render_subnet4 x)) sn.subnet4
    ▸ set_if_not_empty "interface" sn.interface
    ▸ set_if_some "option-data" (render_option_data sn.option_data)
    ▸ set_if_some "relay" (render_relay sn.relay)
    ▸ set_if_not_empty "client-class" sn.client_class
    ▸ set_if_any "require-client-classes" text sn.require_client_classes
    ▸ set_if_not_nil "valid-lifetime" number sn.valid_lifetime
    ▸ set_if_not_nil "min-valid-lifetime" number sn.min_valid_lifetime
    ▸ set_if_not_nil "max-valid-lifetime" number sn.max_valid_lifetime
    ▸ set_if_not_nil "renew-timer" number sn.renew_timer
    ▸ set_if_not_nil "rebind-timer" number sn.rebind_timer
    ▸ set_if_not_nil "authoritative" boolean sn.authoritative

unfoldable pub render_subnets4 : List Subnet4 → Option Json
render_subnets4 = any_of (λ sub. object (render_subnet4 sub))

unfoldable pub render_shared_networks4 : List SharedNetwork4 → Option Json
render_shared_networks4 = any_of (λ sn. object (shared_network4_object sn))
