-- ===== src/Render/Subnets6.antt =====
-- internal/kea/dhcp6_config.go: subnets, pools, prefix delegation and shared networks.
use kea_dhcp_operator.Base.{Option, List, ◌▸◌}
use kea_dhcp_operator.Json.{
  Json, boolean, number, text, object, Object, end, set, set_if_some, set_if_not_nil,
  set_if_not_empty, set_if_any, any_of,
}
use kea_dhcp_operator.Api.Dhcp6.{Pool6, PdPool, Subnet6, SharedNetwork6}
use kea_dhcp_operator.Render.Options.{render_option_data, render_reservations}
use kea_dhcp_operator.Render.Parts.{render_relay}

unfoldable pub render_pool6 : Pool6 → Object
render_pool6 p =
    end
    ▸ set "pool" (text p.pool)
    ▸ set_if_some "option-data" (render_option_data p.option_data)
    ▸ set_if_not_empty "client-class" p.client_class
    ▸ set_if_any "require-client-classes" text p.require_client_classes

unfoldable pub render_pd_pool : PdPool → Object
render_pd_pool pd =
    end
    ▸ set "prefix" (text pd.prefix)
    ▸ set "prefix-len" (number pd.prefix_len)
    ▸ set "delegated-len" (number pd.delegated_len)
    ▸ set_if_not_empty "excluded-prefix" pd.excluded_prefix
    ▸ set_if_not_nil "excluded-prefix-len" number pd.excluded_prefix_len
    ▸ set_if_some "option-data" (render_option_data pd.option_data)
    ▸ set_if_not_empty "client-class" pd.client_class

unfoldable pub render_subnet6 : Subnet6 → Object
render_subnet6 sub =
    end
    ▸ set "id" (number sub.id)
    ▸ set "subnet" (text sub.subnet)
    ▸ set_if_any "pools" (λ x. object (render_pool6 x)) sub.pools
    ▸ set_if_any "pd-pools" (λ x. object (render_pd_pool x)) sub.pd_pools
    ▸ set_if_some "option-data" (render_option_data sub.option_data)
    ▸ set_if_some "reservations" (render_reservations sub.reservations)
    ▸ set_if_not_empty "client-class" sub.client_class
    ▸ set_if_any "require-client-classes" text sub.require_client_classes
    ▸ set_if_not_empty "interface" sub.interface
    ▸ set_if_not_empty "interface-id" sub.interface_id
    ▸ set_if_some "relay" (render_relay sub.relay)
    ▸ set_if_not_nil "preferred-lifetime" number sub.preferred_lifetime
    ▸ set_if_not_nil "valid-lifetime" number sub.valid_lifetime
    ▸ set_if_not_nil "min-valid-lifetime" number sub.min_valid_lifetime
    ▸ set_if_not_nil "max-valid-lifetime" number sub.max_valid_lifetime
    ▸ set_if_not_nil "renew-timer" number sub.renew_timer
    ▸ set_if_not_nil "rebind-timer" number sub.rebind_timer
    ▸ set_if_not_nil "rapid-commit" boolean sub.rapid_commit
    ▸ set_if_not_empty "reservation-mode" sub.reservation_mode

unfoldable pub shared_network6_object : SharedNetwork6 → Object
shared_network6_object sn =
    end
    ▸ set "name" (text sn.name)
    ▸ set_if_any "subnet6" (λ x. object (render_subnet6 x)) sn.subnet6
    ▸ set_if_not_empty "interface" sn.interface
    ▸ set_if_not_empty "interface-id" sn.interface_id
    ▸ set_if_some "option-data" (render_option_data sn.option_data)
    ▸ set_if_some "relay" (render_relay sn.relay)
    ▸ set_if_not_empty "client-class" sn.client_class
    ▸ set_if_not_nil "preferred-lifetime" number sn.preferred_lifetime
    ▸ set_if_not_nil "valid-lifetime" number sn.valid_lifetime
    ▸ set_if_not_nil "renew-timer" number sn.renew_timer
    ▸ set_if_not_nil "rebind-timer" number sn.rebind_timer
    ▸ set_if_not_nil "rapid-commit" boolean sn.rapid_commit

unfoldable pub render_subnets6 : List Subnet6 → Option Json
render_subnets6 = any_of (λ sub. object (render_subnet6 sub))

unfoldable pub render_shared_networks6 : List SharedNetwork6 → Option Json
render_shared_networks6 = any_of (λ sn. object (shared_network6_object sn))
