-- ===== src/Schema/Subnets4.antt =====
-- Subnets, pools and shared networks are read back from their rendering by the JSON names that the
-- structs of api/v1alpha1/keadhcp4server_types.go give their fields.
use kea_dhcp_operator.Base.{◌≡◌, Option, none, some, List, All, ◌>>=◌}
use kea_dhcp_operator.Json.{
  Json, object, get, get_laws, read_laws, optional_text, optional, listed, listed-any_of, required,
  as_text, as_number, as_boolean, any_of, listed-any_of-All,
}
use kea_dhcp_operator.Api.Dhcp4.{Pool4, Subnet4, SharedNetwork4}
use kea_dhcp_operator.Render.Subnets4.{
  render_pool4, render_subnet4, shared_network4_object, render_subnets4, render_shared_networks4,
}
use kea_dhcp_operator.Schema.Options.{
  read_option, read_option-render_option_data, read_reservation,
  read_reservation-render_reservations,
}
use kea_dhcp_operator.Schema.Parts.{read_relay, HasAddress, read_relay-render_relay}

unfoldable pub read_pool4 : Json → Option Pool4
read_pool4 (object m) = do
  pool ← required as_text (get "pool" m)
  option_data ← listed read_option (get "option-data" m)
  client_class ← optional_text (get "client-class" m)
  require_client_classes ← listed as_text (get "require-client-classes" m)
  some (record {
    pool = pool;
    option_data = option_data;
    client_class = client_class;
    require_client_classes = require_client_classes;
  })
read_pool4 _ = none

-- Every Pool4 is read back from its rendering.
pub read_pool4-render_pool4 : (p : Pool4) → read_pool4 (object (render_pool4 p)) ≡ some p
unfolding read_pool4 render_pool4
read_pool4-render_pool4 p = simp (get_laws, read_laws, read_option-render_option_data)

read_pool4_list :
    (ps : List Pool4) → listed read_pool4 (any_of (λ x. object (render_pool4 x)) ps) ≡ some ps
read_pool4_list = listed-any_of read_pool4 (λ x. object (render_pool4 x)) read_pool4-render_pool4

unfoldable pub read_subnet4 : Json → Option Subnet4
read_subnet4 (object m) = do
  id ← required as_number (get "id" m)
  subnet ← required as_text (get "subnet" m)
  pools ← listed read_pool4 (get "pools" m)
  option_data ← listed read_option (get "option-data" m)
  reservations ← listed read_reservation (get "reservations" m)
  client_class ← optional_text (get "client-class" m)
  require_client_classes ← listed as_text (get "require-client-classes" m)
  interface ← optional_text (get "interface" m)
  relay ← optional read_relay (get "relay" m)
  valid_lifetime ← optional as_number (get "valid-lifetime" m)
  min_valid_lifetime ← optional as_number (get "min-valid-lifetime" m)
  max_valid_lifetime ← optional as_number (get "max-valid-lifetime" m)
  renew_timer ← optional as_number (get "renew-timer" m)
  rebind_timer ← optional as_number (get "rebind-timer" m)
  authoritative ← optional as_boolean (get "authoritative" m)
  reservation_mode ← optional_text (get "reservation-mode" m)
  match_client_id ← optional as_boolean (get "match-client-id" m)
  next_server ← optional_text (get "next-server" m)
  boot_file_name ← optional_text (get "boot-file-name" m)
  server_hostname ← optional_text (get "server-hostname" m)
  user_context ← optional_text (get "user-context" m)
  some (record {
    id = id;
    subnet = subnet;
    pools = pools;
    option_data = option_data;
    reservations = reservations;
    client_class = client_class;
    require_client_classes = require_client_classes;
    interface = interface;
    relay = relay;
    valid_lifetime = valid_lifetime;
    min_valid_lifetime = min_valid_lifetime;
    max_valid_lifetime = max_valid_lifetime;
    renew_timer = renew_timer;
    rebind_timer = rebind_timer;
    authoritative = authoritative;
    reservation_mode = reservation_mode;
    match_client_id = match_client_id;
    next_server = next_server;
    boot_file_name = boot_file_name;
    server_hostname = server_hostname;
    user_context = user_context;
  })
read_subnet4 _ = none

-- Every subnet whose relay, if it has one, names an address is read back from its rendering.
pub read_subnet4-render_subnet4 :
    (sub : Subnet4) → HasAddress sub.relay → read_subnet4 (object (render_subnet4 sub)) ≡ some sub
unfolding read_subnet4 render_subnet4
read_subnet4-render_subnet4 sub h = simp (
  get_laws,
  read_laws,
  read_option-render_option_data,
  read_reservation-render_reservations,
  read_pool4_list,
  read_relay-render_relay sub.relay h,
)

abbrev pub HaveAddresses : List Subnet4 → Type 0
HaveAddresses = All (λ sub. HasAddress sub.relay)

read_subnet4_list :
    (subs : List Subnet4)
    → HaveAddresses subs
    → listed read_subnet4 (any_of (λ x. object (render_subnet4 x)) subs) ≡ some subs
read_subnet4_list =
    listed-any_of-All read_subnet4 (λ x. object (render_subnet4 x)) (λ sub. HasAddress sub.relay)
      read_subnet4-render_subnet4

unfoldable pub read_shared_network4 : Json → Option SharedNetwork4
read_shared_network4 (object m) = do
  name ← required as_text (get "name" m)
  subnet4 ← listed read_subnet4 (get "subnet4" m)
  interface ← optional_text (get "interface" m)
  option_data ← listed read_option (get "option-data" m)
  relay ← optional read_relay (get "relay" m)
  client_class ← optional_text (get "client-class" m)
  require_client_classes ← listed as_text (get "require-client-classes" m)
  valid_lifetime ← optional as_number (get "valid-lifetime" m)
  min_valid_lifetime ← optional as_number (get "min-valid-lifetime" m)
  max_valid_lifetime ← optional as_number (get "max-valid-lifetime" m)
  renew_timer ← optional as_number (get "renew-timer" m)
  rebind_timer ← optional as_number (get "rebind-timer" m)
  authoritative ← optional as_boolean (get "authoritative" m)
  some (record {
    name = name;
    subnet4 = subnet4;
    interface = interface;
    option_data = option_data;
    relay = relay;
    client_class = client_class;
    require_client_classes = require_client_classes;
    valid_lifetime = valid_lifetime;
    min_valid_lifetime = min_valid_lifetime;
    max_valid_lifetime = max_valid_lifetime;
    renew_timer = renew_timer;
    rebind_timer = rebind_timer;
    authoritative = authoritative;
  })
read_shared_network4 _ = none

-- Every shared network whose relays name addresses is read back from its rendering, its subnets
-- included.
pub read_shared_network4-shared_network4_object :
    (sn : SharedNetwork4)
    → HasAddress sn.relay
    → HaveAddresses sn.subnet4
    → read_shared_network4 (object (shared_network4_object sn)) ≡ some sn
unfolding read_shared_network4 shared_network4_object
read_shared_network4-shared_network4_object sn h hs = simp (
  get_laws,
  read_laws,
  read_option-render_option_data,
  read_subnet4_list sn.subnet4 hs,
  read_relay-render_relay sn.relay h,
)

pub read_subnets4 :
    (subs : List Subnet4)
    → HaveAddresses subs
    → listed read_subnet4 (render_subnets4 subs) ≡ some subs
unfolding render_subnets4
read_subnets4 = read_subnet4_list

pub read_shared_networks4 :
    (sns : List SharedNetwork4)
    → All (λ sn. HasAddress sn.relay × HaveAddresses sn.subnet4) sns
    → listed read_shared_network4 (render_shared_networks4 sns) ≡ some sns
unfolding render_shared_networks4
read_shared_networks4 =
    listed-any_of-All read_shared_network4 (λ sn. object (shared_network4_object sn))
      (λ sn. HasAddress sn.relay × HaveAddresses sn.subnet4)
      (λ sn h. read_shared_network4-shared_network4_object sn h.0 h.1)
