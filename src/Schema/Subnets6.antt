-- ===== src/Schema/Subnets6.antt =====
-- Subnets, pools and shared networks are read back from their rendering by the JSON names that the
-- structs of api/v1alpha1/keadhcp6server_types.go give their fields.
use kea_dhcp_operator.Base.{◌≡◌, Option, none, some, List, All, ◌>>=◌}
use kea_dhcp_operator.Json.{
  Json, object, get, get_laws, read_laws, optional_text, optional, listed, listed-any_of, required,
  as_text, as_number, as_boolean, any_of, listed-any_of-All,
}
use kea_dhcp_operator.Api.Dhcp6.{Pool6, PdPool, Subnet6, SharedNetwork6}
use kea_dhcp_operator.Render.Subnets6.{
  render_pool6, render_pd_pool, render_subnet6, shared_network6_object, render_subnets6,
  render_shared_networks6,
}
use kea_dhcp_operator.Schema.Options.{
  read_option, read_option-render_option_data, read_reservation,
  read_reservation-render_reservations,
}
use kea_dhcp_operator.Schema.Parts.{read_relay, HasAddress, read_relay-render_relay}

unfoldable pub read_pool6 : Json → Option Pool6
read_pool6 (object m) = do
  pool ← required as_text (get "pool" m)
  option_data ← listed read_option (get "option-data" m)
  client_class ← optional_text (get "client-class" m)
  require_client_classes ← listed as_text (get "require-client-classes" m)
  some (record {
    pool = pool;
    option_data = option_data;
    client_class = client_class;
    require_client_classes = require_client_classes;
  })
read_pool6 _ = none

-- Every Pool6 is read back from its rendering.
pub read_pool6-render_pool6 : (p : Pool6) → read_pool6 (object (render_pool6 p)) ≡ some p
unfolding read_pool6 render_pool6
read_pool6-render_pool6 p = simp (get_laws, read_laws, read_option-render_option_data)

read_pool6_list :
    (ps : List Pool6) → listed read_pool6 (any_of (λ x. object (render_pool6 x)) ps) ≡ some ps
read_pool6_list = listed-any_of read_pool6 (λ x. object (render_pool6 x)) read_pool6-render_pool6

unfoldable pub read_pd_pool : Json → Option PdPool
read_pd_pool (object m) = do
  prefix ← required as_text (get "prefix" m)
  prefix_len ← required as_number (get "prefix-len" m)
  delegated_len ← required as_number (get "delegated-len" m)
  excluded_prefix ← optional_text (get "excluded-prefix" m)
  excluded_prefix_len ← optional as_number (get "excluded-prefix-len" m)
  option_data ← listed read_option (get "option-data" m)
  client_class ← optional_text (get "client-class" m)
  some (record {
    prefix = prefix;
    prefix_len = prefix_len;
    delegated_len = delegated_len;
    excluded_prefix = excluded_prefix;
    excluded_prefix_len = excluded_prefix_len;
    option_data = option_data;
    client_class = client_class;
  })
read_pd_pool _ = none

-- Every PDPool is read back from its rendering.
pub read_pd_pool-render_pd_pool :
    (pd : PdPool) → read_pd_pool (object (render_pd_pool pd)) ≡ some pd
unfolding read_pd_pool render_pd_pool
read_pd_pool-render_pd_pool pd = simp (get_laws, read_laws, read_option-render_option_data)

read_pd_pool_list :
    (ps : List PdPool) → listed read_pd_pool (any_of (λ x. object (render_pd_pool x)) ps) ≡ some ps
read_pd_pool_list =
    listed-any_of read_pd_pool (λ x. object (render_pd_pool x)) read_pd_pool-render_pd_pool

unfoldable pub read_subnet6 : Json → Option Subnet6
read_subnet6 (object m) = do
  id ← required as_number (get "id" m)
  subnet ← required as_text (get "subnet" m)
  pools ← listed read_pool6 (get "pools" m)
  pd_pools ← listed read_pd_pool (get "pd-pools" m)
  option_data ← listed read_option (get "option-data" m)
  reservations ← listed read_reservation (get "reservations" m)
  client_class ← optional_text (get "client-class" m)
  require_client_classes ← listed as_text (get "require-client-classes" m)
  interface ← optional_text (get "interface" m)
  interface_id ← optional_text (get "interface-id" m)
  relay ← optional read_relay (get "relay" m)
  preferred_lifetime ← optional as_number (get "preferred-lifetime" m)
  valid_lifetime ← optional as_number (get "valid-lifetime" m)
  min_valid_lifetime ← optional as_number (get "min-valid-lifetime" m)
  max_valid_lifetime ← optional as_number (get "max-valid-lifetime" m)
  renew_timer ← optional as_number (get "renew-timer" m)
  rebind_timer ← optional as_number (get "rebind-timer" m)
  rapid_commit ← optional as_boolean (get "rapid-commit" m)
  reservation_mode ← optional_text (get "reservation-mode" m)
  some (record {
    id = id;
    subnet = subnet;
    pools = pools;
    pd_pools = pd_pools;
    option_data = option_data;
    reservations = reservations;
    client_class = client_class;
    require_client_classes = require_client_classes;
    interface = interface;
    interface_id = interface_id;
    relay = relay;
    preferred_lifetime = preferred_lifetime;
    valid_lifetime = valid_lifetime;
    min_valid_lifetime = min_valid_lifetime;
    max_valid_lifetime = max_valid_lifetime;
    renew_timer = renew_timer;
    rebind_timer = rebind_timer;
    rapid_commit = rapid_commit;
    reservation_mode = reservation_mode;
  })
read_subnet6 _ = none

-- Every subnet whose relay, if it has one, names an address is read back from its rendering.
pub read_subnet6-render_subnet6 :
    (sub : Subnet6) → HasAddress sub.relay → read_subnet6 (object (render_subnet6 sub)) ≡ some sub
unfolding read_subnet6 render_subnet6
read_subnet6-render_subnet6 sub h = simp (
  get_laws,
  read_laws,
  read_option-render_option_data,
  read_reservation-render_reservations,
  read_pool6_list,
  read_pd_pool_list,
  read_relay-render_relay sub.relay h,
)

abbrev pub HaveAddresses : List Subnet6 → Type 0
HaveAddresses = All (λ sub. HasAddress sub.relay)

read_subnet6_list :
    (subs : List Subnet6)
    → HaveAddresses subs
    → listed read_subnet6 (any_of (λ x. object (render_subnet6 x)) subs) ≡ some subs
read_subnet6_list =
    listed-any_of-All read_subnet6 (λ x. object (render_subnet6 x)) (λ sub. HasAddress sub.relay)
      read_subnet6-render_subnet6

unfoldable pub read_shared_network6 : Json → Option SharedNetwork6
read_shared_network6 (object m) = do
  name ← required as_text (get "name" m)
  subnet6 ← listed read_subnet6 (get "subnet6" m)
  interface ← optional_text (get "interface" m)
  interface_id ← optional_text (get "interface-id" m)
  option_data ← listed read_option (get "option-data" m)
  relay ← optional read_relay (get "relay" m)
  client_class ← optional_text (get "client-class" m)
  preferred_lifetime ← optional as_number (get "preferred-lifetime" m)
  valid_lifetime ← optional as_number (get "valid-lifetime" m)
  renew_timer ← optional as_number (get "renew-timer" m)
  rebind_timer ← optional as_number (get "rebind-timer" m)
  rapid_commit ← optional as_boolean (get "rapid-commit" m)
  some (record {
    name = name;
    subnet6 = subnet6;
    interface = interface;
    interface_id = interface_id;
    option_data = option_data;
    relay = relay;
    client_class = client_class;
    preferred_lifetime = preferred_lifetime;
    valid_lifetime = valid_lifetime;
    renew_timer = renew_timer;
    rebind_timer = rebind_timer;
    rapid_commit = rapid_commit;
  })
read_shared_network6 _ = none

-- Every shared network whose relays name addresses is read back from its rendering, its subnets
-- included.
pub read_shared_network6-shared_network6_object :
    (sn : SharedNetwork6)
    → HasAddress sn.relay
    → HaveAddresses sn.subnet6
    → read_shared_network6 (object (shared_network6_object sn)) ≡ some sn
unfolding read_shared_network6 shared_network6_object
read_shared_network6-shared_network6_object sn h hs = simp (
  get_laws,
  read_laws,
  read_option-render_option_data,
  read_subnet6_list sn.subnet6 hs,
  read_relay-render_relay sn.relay h,
)

pub read_subnets6 :
    (subs : List Subnet6)
    → HaveAddresses subs
    → listed read_subnet6 (render_subnets6 subs) ≡ some subs
unfolding render_subnets6
read_subnets6 = read_subnet6_list

pub read_shared_networks6 :
    (sns : List SharedNetwork6)
    → All (λ sn. HasAddress sn.relay × HaveAddresses sn.subnet6) sns
    → listed read_shared_network6 (render_shared_networks6 sns) ≡ some sns
unfolding render_shared_networks6
read_shared_networks6 =
    listed-any_of-All read_shared_network6 (λ sn. object (shared_network6_object sn))
      (λ sn. HasAddress sn.relay × HaveAddresses sn.subnet6)
      (λ sn h. read_shared_network6-shared_network6_object sn h.0 h.1)
