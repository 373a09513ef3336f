-- ===== src/Controller/Dhcp4/Nad.antt =====
-- internal/controller/keadhcp4server_controller.go: the interface, the subnet and the addresses of the
-- network attachment. net.ParseCIDR with To4 is a parameter: it gives the four bytes of an address.
-- Replicas, an int32 that the API server keeps at 1 at least, are a natural number.
use Prim.Native.Nat.{ℕ, ◌+◌, suc, zero, ◌%◌, ◌<◌, ◌≤◌}
use mathlib.Core.Option.{some-injective}
use kea_dhcp_operator.Base.{
  ◌≢◌, String, false, ◌≡◌, ◌∙◌, ap, ◌<>◌, Option, none, some, List, [], ◌∷◌, ◌==◌, ◌||◌, ◌&&◌, not,
  if◌then◌else◌, get_elem?, eqb, append_cancel_left, arith,
}
use kea_dhcp_operator.Base.Decimal.{decimal, decimal-injective}
use kea_dhcp_operator.Api.Dhcp4.{KeaDhcp4Server, Subnet4}

-- The loop of `nadInterface`.
unfoldable pub first_nad_interface : List String → String
first_nad_interface [] = ""
first_nad_interface (iface ∷ ifaces) =
    if not (iface == "*") && (not (iface == "eth0") && not (iface == "lo"))
    then iface
    else first_nad_interface ifaces

unfoldable pub nad_interface : KeaDhcp4Server → String
nad_interface server = first_nad_interface server.spec.interfaces_config.interfaces

unfoldable pub first_subnet : List Subnet4 → String
first_subnet [] = ""
first_subnet (sub ∷ subs) = sub.subnet

unfoldable pub nad_subnet : KeaDhcp4Server → String
nad_subnet server = first_subnet server.spec.subnet4

-- net.IP of four bytes.
pub record Ipv4 : Type 0 where
  pub byte0 : ℕ
  pub byte1 : ℕ
  pub byte2 : ℕ
  pub byte3 : ℕ

-- net.IP.String
unfoldable pub ip_string : Ipv4 → String
ip_string ip =
    decimal ip.byte0
    <> ("." <> (decimal ip.byte1 <> ("." <> (decimal ip.byte2 <> ("." <> decimal ip.byte3)))))

-- addr[3] += byte(i + 2), on bytes.
unfoldable pub nad_address : Ipv4 → ℕ → Ipv4
nad_address ip i = record ip { byte3 = (ip.byte3 + (i + 2) % 256) % 256 }

-- The loop over the replicas, from an index on.
unfoldable pub nad_addresses_from : Ipv4 → ℕ → ℕ → List String
nad_addresses_from ip i zero = []
nad_addresses_from ip i (suc n) = ip_string (nad_address ip i) ∷ nad_addresses_from ip (suc i) n

module _ (parse_cidr_v4 : String → Option Ipv4) where
  addresses_of : Option Ipv4 → ℕ → List String
  addresses_of none replicas = []
  addresses_of (some ip) replicas = nad_addresses_from ip 0 replicas

  unfoldable pub compute_nad_addresses : String → ℕ → List String
  unfolding addresses_of
  compute_nad_addresses subnet_cidr replicas =
      if (subnet_cidr == "") || eqb replicas 0
      then []
      else addresses_of (parse_cidr_v4 subnet_cidr) replicas

get_elem?-nad_addresses_from :
    (ip : Ipv4) (i n k : ℕ)
    → k < n
    → get_elem? (nad_addresses_from ip i n) k ≡ some (ip_string (nad_address ip (i + k)))
unfolding nad_addresses_from
get_elem?-nad_addresses_from ip i zero k h = ground (arith, h)
get_elem?-nad_addresses_from ip i (suc n) zero h =
    ap (λ (m : ℕ). some (ip_string (nad_address ip m))) (omega arith)
get_elem?-nad_addresses_from ip i (suc n) (suc k) h =
    get_elem?-nad_addresses_from ip (suc i) n k (omega (arith, h))
    ∙ ap (λ (m : ℕ). some (ip_string (nad_address ip m))) (omega arith)

nad_address_at :
    (ip : Ipv4) (n k : ℕ)
    → k < n
    → get_elem? (nad_addresses_from ip 0 n) k ≡ some (ip_string (nad_address ip k))
nad_address_at ip n k h =
    get_elem?-nad_addresses_from ip 0 n k h
    ∙ ap (λ (m : ℕ). some (ip_string (nad_address ip m))) (omega arith)

byte3-ip_string :
    (ip : Ipv4) (i j : ℕ)
    → ip_string (nad_address ip i) ≡ ip_string (nad_address ip j)
    → (nad_address ip i).byte3 ≡ (nad_address ip j).byte3
unfolding ip_string nad_address
byte3-ip_string ip i j h = decimal-injective _ _ (
    append_cancel_left "." _ _ (
      append_cancel_left (decimal ip.byte2) _ _ (
        append_cancel_left "." _ _ (
          append_cancel_left (decimal ip.byte1) _ _
            (append_cancel_left "." _ _ (append_cancel_left (decimal ip.byte0) _ _ h))))))

same_byte :
    (b i j : ℕ) → i < 256 → j < 256 → (b + (i + 2) % 256) % 256 ≡ (b + (j + 2) % 256) % 256 → i ≡ j
same_byte b i j hi hj h = omega arith

ip_string-nad_address-injective :
    (ip : Ipv4) (i j : ℕ)
    → i < 256
    → j < 256
    → ip_string (nad_address ip i) ≡ ip_string (nad_address ip j)
    → i ≡ j
unfolding nad_address
ip_string-nad_address-injective ip i j hi hj h =
    same_byte ip.byte3 i j hi hj (byte3-ip_string ip i j h)

module _ (parse_cidr_v4 : String → Option Ipv4) where
  computed :
      (subnet_cidr : String) (replicas : ℕ) (ip : Ipv4)
      → (subnet_cidr == "") ≡ false
      → parse_cidr_v4 subnet_cidr ≡ some ip
      → compute_nad_addresses parse_cidr_v4 subnet_cidr replicas ≡ nad_addresses_from ip 0 replicas
  unfolding compute_nad_addresses addresses_of nad_addresses_from
  computed subnet_cidr zero ip h parsed = rw h
  computed subnet_cidr (suc n) ip h parsed = rw (h, parsed) (ground arith)

  -- For a subnet that is given and can be parsed no two of up to 256 replicas have the same address
  -- in the status, even where the last byte wraps around.
  pub compute_nad_addresses-distinct :
      (subnet_cidr : String) (replicas i j : ℕ) (ip : Ipv4)
      → (subnet_cidr == "") ≡ false
      → parse_cidr_v4 subnet_cidr ≡ some ip
      → replicas ≤ 256
      → i < replicas
      → j < replicas
      → i ≢ j
      → get_elem? (compute_nad_addresses parse_cidr_v4 subnet_cidr replicas) i
        ≢ get_elem? (compute_nad_addresses parse_cidr_v4 subnet_cidr replicas) j
  compute_nad_addresses-distinct subnet_cidr replicas i j ip h parsed few hi hj apart =
      rw
        (
          computed subnet_cidr replicas ip h parsed,
          nad_address_at ip replicas i hi,
          nad_address_at ip replicas j hj,
        )
        (λ same. apart (
          ip_string-nad_address-injective ip i j (omega arith) (omega arith)
            (some-injective _ _ same)))
