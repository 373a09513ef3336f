-- ===== src/Schema/Options.antt =====
-- Options, classes and reservations are read back from their rendering by the JSON names that the
-- structs of api/v1alpha1/common_types.go give their fields.
use kea_dhcp_operator.Base.{◌≡◌, Option, none, some, List, ◌>>=◌}
use kea_dhcp_operator.Json.{
  Json, object, get, get_laws, read_laws, optional_text, optional, listed, listed-any_of, required,
  as_text, as_number, as_boolean,
}
use kea_dhcp_operator.Api.Common.{OptionData, OptionDef, ClientClass, Reservation}
use kea_dhcp_operator.Render.Options.{
  option_object, render_option_data, option_def_object, render_option_def, client_class_object,
  render_client_classes, reservation_object, render_reservations,
}

unfoldable pub read_option : Json → Option OptionData
read_option (object m) = do
  name ← optional_text (get "name" m)
  code ← optional as_number (get "code" m)
  space ← optional_text (get "space" m)
  csv_format ← optional as_boolean (get "csv-format" m)
  data_text ← optional_text (get "data" m)
  always_send ← optional as_boolean (get "always-send" m)
  never_send ← optional as_boolean (get "never-send" m)
  some (record {
    name = name;
    code = code;
    space = space;
    csv_format = csv_format;
    data_text = data_text;
    always_send = always_send;
    never_send = never_send;
  })
read_option _ = none

-- Every OptionData is read back from its rendering.
pub read_option-option_object : (o : OptionData) → read_option (object (option_object o)) ≡ some o
unfolding read_option option_object
read_option-option_object o = simp (get_laws, read_laws)

pub read_option-render_option_data :
    (opts : List OptionData) → listed read_option (render_option_data opts) ≡ some opts
unfolding render_option_data
read_option-render_option_data =
    listed-any_of read_option (λ o. object (option_object o)) read_option-option_object

unfoldable pub read_option_def : Json → Option OptionDef
read_option_def (object m) = do
  name ← required as_text (get "name" m)
  code ← required as_number (get "code" m)
  kind ← required as_text (get "type" m)
  is_array ← optional as_boolean (get "array" m)
  record_types ← optional_text (get "record-types" m)
  encapsulate ← optional_text (get "encapsulate" m)
  space ← optional_text (get "space" m)
  some (record {
    name = name;
    code = code;
    kind = kind;
    array = is_array;
    record_types = record_types;
    encapsulate = encapsulate;
    space = space;
  })
read_option_def _ = none

-- Every OptionDef is read back from its rendering.
pub read_option_def-option_def_object :
    (d : OptionDef) → read_option_def (object (option_def_object d)) ≡ some d
unfolding read_option_def option_def_object
read_option_def-option_def_object d = simp (get_laws, read_laws)

pub read_option_def-render_option_def :
    (defs : List OptionDef) → listed read_option_def (render_option_def defs) ≡ some defs
unfolding render_option_def
read_option_def-render_option_def =
    listed-any_of read_option_def (λ d. object (option_def_object d))
      read_option_def-option_def_object

unfoldable pub read_client_class : Json → Option ClientClass
read_client_class (object m) = do
  name ← required as_text (get "name" m)
  test ← optional_text (get "test" m)
  option_data ← listed read_option (get "option-data" m)
  only_if_required ← optional as_boolean (get "only-if-required" m)
  valid_lifetime ← optional as_number (get "valid-lifetime" m)
  min_valid_lifetime ← optional as_number (get "min-valid-lifetime" m)
  max_valid_lifetime ← optional as_number (get "max-valid-lifetime" m)
  some (record {
    name = name;
    test = test;
    option_data = option_data;
    only_if_required = only_if_required;
    valid_lifetime = valid_lifetime;
    min_valid_lifetime = min_valid_lifetime;
    max_valid_lifetime = max_valid_lifetime;
  })
read_client_class _ = none

-- Every ClientClass is read back from its rendering.
pub read_client_class-client_class_object :
    (c : ClientClass) → read_client_class (object (client_class_object c)) ≡ some c
unfolding read_client_class client_class_object
read_client_class-client_class_object c = simp (get_laws, read_laws, read_option-render_option_data)

pub read_client_class-render_client_classes :
    (classes : List ClientClass)
    → listed read_client_class (render_client_classes classes) ≡ some classes
unfolding render_client_classes
read_client_class-render_client_classes =
    listed-any_of read_client_class (λ c. object (client_class_object c))
      read_client_class-client_class_object

unfoldable pub read_reservation : Json → Option Reservation
read_reservation (object m) = do
  hw_address ← optional_text (get "hw-address" m)
  client_id ← optional_text (get "client-id" m)
  duid ← optional_text (get "duid" m)
  circuit_id ← optional_text (get "circuit-id" m)
  flex_id ← optional_text (get "flex-id" m)
  hostname ← optional_text (get "hostname" m)
  ip_address ← optional_text (get "ip-address" m)
  ip_addresses ← listed as_text (get "ip-addresses" m)
  prefixes ← listed as_text (get "prefixes" m)
  option_data ← listed read_option (get "option-data" m)
  client_classes ← listed as_text (get "client-classes" m)
  next_server ← optional_text (get "next-server" m)
  boot_file_name ← optional_text (get "boot-file-name" m)
  server_hostname ← optional_text (get "server-hostname" m)
  some (record {
    hw_address = hw_address;
    client_id = client_id;
    duid = duid;
    circuit_id = circuit_id;
    flex_id = flex_id;
    hostname = hostname;
    ip_address = ip_address;
    ip_addresses = ip_addresses;
    prefixes = prefixes;
    option_data = option_data;
    client_classes = client_classes;
    next_server = next_server;
    boot_file_name = boot_file_name;
    server_hostname = server_hostname;
  })
read_reservation _ = none

-- Every Reservation is read back from its rendering.
pub read_reservation-reservation_object :
    (r : Reservation) → read_reservation (object (reservation_object r)) ≡ some r
unfolding read_reservation reservation_object
read_reservation-reservation_object r = simp (get_laws, read_laws, read_option-render_option_data)

pub read_reservation-render_reservations :
    (reservations : List Reservation)
    → listed read_reservation (render_reservations reservations) ≡ some reservations
unfolding render_reservations
read_reservation-render_reservations =
    listed-any_of read_reservation (λ r. object (reservation_object r))
      read_reservation-reservation_object
