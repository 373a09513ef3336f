-- ===== src/Render/Options.antt =====
-- internal/kea/config.go: options, classes and reservations. A renderer of a slice returns nothing
-- for an empty one, as the code returns nil.
use kea_dhcp_operator.Base.{Option, List, ◌▸◌}
use kea_dhcp_operator.Json.{
  Json, boolean, number, text, object, Object, end, set, set_if_some, set_if_not_nil,
  set_if_not_empty, set_if_any, any_of,
}
use kea_dhcp_operator.Api.Common.{OptionData, OptionDef, ClientClass, Reservation}

unfoldable pub option_object : OptionData → Object
option_object o =
    end
    ▸ set_if_not_empty "name" o.name
    ▸ set_if_not_nil "code" number o.code
    ▸ set_if_not_empty "space" o.space
    ▸ set_if_not_nil "csv-format" boolean o.csv_format
    ▸ set_if_not_empty "data" o.data_text
    ▸ set_if_not_nil "always-send" boolean o.always_send
    ▸ set_if_not_nil "never-send" boolean o.never_send

unfoldable pub render_option_data : List OptionData → Option Json
render_option_data = any_of (λ o. object (option_object o))

unfoldable pub option_def_object : OptionDef → Object
option_def_object d =
    end
    ▸ set "name" (text d.name)
    ▸ set "code" (number d.code)
    ▸ set "type" (text d.kind)
    ▸ set_if_not_nil "array" boolean d.array
    ▸ set_if_not_empty "record-types" d.record_types
    ▸ set_if_not_empty "encapsulate" d.encapsulate
    ▸ set_if_not_empty "space" d.space

unfoldable pub render_option_def : List OptionDef → Option Json
render_option_def = any_of (λ d. object (option_def_object d))

unfoldable pub client_class_object : ClientClass → Object
client_class_object c =
    end
    ▸ set "name" (text c.name)
    ▸ set_if_not_empty "test" c.test
    ▸ set_if_some "option-data" (render_option_data c.option_data)
    ▸ set_if_not_nil "only-if-required" boolean c.only_if_required
    ▸ set_if_not_nil "valid-lifetime" number c.valid_lifetime
    ▸ set_if_not_nil "min-valid-lifetime" number c.min_valid_lifetime
    ▸ set_if_not_nil "max-valid-lifetime" number c.max_valid_lifetime

unfoldable pub render_client_classes : List ClientClass → Option Json
render_client_classes = any_of (λ c. object (client_class_object c))

unfoldable pub reservation_object : Reservation → Object
reservation_object r =
    end
    ▸ set_if_not_empty "hw-address" r.hw_address
    ▸ set_if_not_empty "client-id" r.client_id
    ▸ set_if_not_empty "duid" r.duid
    ▸ set_if_not_empty "circuit-id" r.circuit_id
    ▸ set_if_not_empty "flex-id" r.flex_id
    ▸ set_if_not_empty "hostname" r.hostname
    ▸ set_if_not_empty "ip-address" r.ip_address
    ▸ set_if_any "ip-addresses" text r.ip_addresses
    ▸ set_if_any "prefixes" text r.prefixes
    ▸ set_if_some "option-data" (render_option_data r.option_data)
    ▸ set_if_any "client-classes" text r.client_classes
    ▸ set_if_not_empty "next-server" r.next_server
    ▸ set_if_not_empty "boot-file-name" r.boot_file_name
    ▸ set_if_not_empty "server-hostname" r.server_hostname

unfoldable pub render_reservations : List Reservation → Option Json
render_reservations = any_of (λ r. object (reservation_object r))
