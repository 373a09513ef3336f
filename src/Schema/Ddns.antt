-- ===== src/Schema/Ddns.antt =====
-- The DHCP-DDNS configuration is read back from its rendering by the JSON names that the structs of
-- api/v1alpha1/keadhcpddns_types.go give their fields.
use kea_dhcp_operator.Base.{String, ◌≡◌, refl, Option, none, some, List, [], map, ◌>>=◌}
use kea_dhcp_operator.Json.{
  Json, object, get, get_laws, read_laws, optional_text, optional, listed, listed-any_of,
  listed-any_of_strip, required, as_text, as_number, any_of,
}
use kea_dhcp_operator.Api.Ddns.{DdnsConfig, DdnsDomain, DnsServer, KeaDhcpDdnsSpec, TsigKey}
use kea_dhcp_operator.Render.Ddns.{
  DdnsConfigRenderer, tsig_key_object, dns_server_object, ddns_domain_object, ddns_config_object,
  render_ddns_config, ddns_object, render_ddns_json,
}
use kea_dhcp_operator.Schema.Dhcp4.{no_container, as_root}
use kea_dhcp_operator.Schema.Parts.{
  read_control_socket, read_control_socket-render_control_socket, read_logger,
  read_logger-render_loggers,
}

unfoldable pub read_dns_server : Json → Option DnsServer
read_dns_server (object m) = do
  ip_address ← required as_text (get "ip-address" m)
  port ← optional as_number (get "port" m)
  some (record { ip_address = ip_address; port = port })
read_dns_server _ = none

read_dns_server-dns_server_object :
    (srv : DnsServer) → read_dns_server (object (dns_server_object srv)) ≡ some srv
unfolding read_dns_server dns_server_object
read_dns_server-dns_server_object srv = simp (get_laws, read_laws)

read_dns_server_list :
    (xs : List DnsServer)
    → listed read_dns_server (any_of (λ x. object (dns_server_object x)) xs) ≡ some xs
read_dns_server_list =
    listed-any_of read_dns_server (λ x. object (dns_server_object x))
      read_dns_server-dns_server_object

unfoldable pub read_ddns_domain : Json → Option DdnsDomain
read_ddns_domain (object m) = do
  name ← required as_text (get "name" m)
  key_name ← optional_text (get "key-name" m)
  dns_servers ← listed read_dns_server (get "dns-servers" m)
  some (record { name = name; key_name = key_name; dns_servers = dns_servers })
read_ddns_domain _ = none

read_ddns_domain-ddns_domain_object :
    (d : DdnsDomain) → read_ddns_domain (object (ddns_domain_object d)) ≡ some d
unfolding read_ddns_domain ddns_domain_object
read_ddns_domain-ddns_domain_object d = simp (get_laws, read_laws, read_dns_server_list)

read_ddns_domain_list :
    (xs : List DdnsDomain)
    → listed read_ddns_domain (any_of (λ x. object (ddns_domain_object x)) xs) ≡ some xs
read_ddns_domain_list =
    listed-any_of read_ddns_domain (λ x. object (ddns_domain_object x))
      read_ddns_domain-ddns_domain_object

unfoldable pub read_ddns_config : Json → Option DdnsConfig
read_ddns_config (object m) = do
  ddns_domains ← listed read_ddns_domain (get "ddns-domains" m)
  some (record { ddns_domains = ddns_domains })
read_ddns_config _ = none

pub read_ddns_config-ddns_config_object :
    (cfg : DdnsConfig) → read_ddns_config (object (ddns_config_object cfg)) ≡ some cfg
unfolding read_ddns_config ddns_config_object
read_ddns_config-ddns_config_object cfg = simp (get_laws, read_laws, read_ddns_domain_list)

read_ddns_config-render_ddns_config :
    (o : Option DdnsConfig) → optional read_ddns_config (render_ddns_config o) ≡ some o
unfolding render_ddns_config optional
read_ddns_config-render_ddns_config none = refl
read_ddns_config-render_ddns_config (some cfg) = rw (read_ddns_config-ddns_config_object cfg)

-- The name of the key's Secret is not part of Kea's configuration.
abbrev pub without_secret_ref : TsigKey → TsigKey
without_secret_ref k = record k { secret_ref = none }

unfoldable pub read_tsig_key : Json → Option TsigKey
read_tsig_key (object m) = do
  name ← required as_text (get "name" m)
  algorithm ← required as_text (get "algorithm" m)
  digest_bits ← optional as_number (get "digest-bits" m)
  some (record { name = name; algorithm = algorithm; digest_bits = digest_bits; secret_ref = none })
read_tsig_key _ = none

module _ (secrets : List (String × String)) where
  read_tsig_key-tsig_key_object :
      (k : TsigKey)
      → read_tsig_key (object (tsig_key_object secrets k)) ≡ some (without_secret_ref k)
  unfolding read_tsig_key tsig_key_object
  read_tsig_key-tsig_key_object k = simp (get_laws, read_laws)

  read_tsig_key_list :
      (xs : List TsigKey)
      → listed read_tsig_key (any_of (λ x. object (tsig_key_object secrets x)) xs)
        ≡ some (map without_secret_ref xs)
  read_tsig_key_list =
      listed-any_of_strip read_tsig_key (λ x. object (tsig_key_object secrets x)) without_secret_ref
        read_tsig_key-tsig_key_object

-- What of a spec is Kea's configuration, but for the hook libraries.
abbrev pub ddns_part : KeaDhcpDdnsSpec → KeaDhcpDdnsSpec
ddns_part s = record s {
  container = no_container;
  replicas = none;
  placement = none;
  tsig_keys = map without_secret_ref s.tsig_keys;
  hooks_libraries = [];
}

unfoldable pub read_ddns : Json → Option KeaDhcpDdnsSpec
read_ddns (object m) = do
  ip_address ← optional_text (get "ip-address" m)
  port ← optional as_number (get "port" m)
  dns_server_timeout ← optional as_number (get "dns-server-timeout" m)
  ncr_protocol ← optional_text (get "ncr-protocol" m)
  ncr_format ← optional_text (get "ncr-format" m)
  tsig_keys ← listed read_tsig_key (get "tsig-keys" m)
  forward_ddns ← optional read_ddns_config (get "forward-ddns" m)
  reverse_ddns ← optional read_ddns_config (get "reverse-ddns" m)
  control_socket ← optional read_control_socket (get "control-socket" m)
  loggers ← listed read_logger (get "loggers" m)
  some (record {
    container = no_container;
    replicas = none;
    placement = none;
    ip_address = ip_address;
    port = port;
    dns_server_timeout = dns_server_timeout;
    ncr_protocol = ncr_protocol;
    ncr_format = ncr_format;
    tsig_keys = tsig_keys;
    forward_ddns = forward_ddns;
    reverse_ddns = reverse_ddns;
    control_socket = control_socket;
    hooks_libraries = [];
    loggers = loggers;
  })
read_ddns _ = none

-- The configuration under the key "DhcpDdns" of the root.
unfoldable pub read_ddns_root : Json → Option KeaDhcpDdnsSpec
read_ddns_root v = required read_ddns (as_root "DhcpDdns" v)

module _ (unmarshal : String → Option Json) where
  read_ddns-ddns_object :
      (r : DdnsConfigRenderer)
      → read_ddns (object (ddns_object unmarshal r)) ≡ some (ddns_part r.spec)
  unfolding read_ddns ddns_object
  read_ddns-ddns_object r = simp (
    get_laws,
    read_laws,
    read_tsig_key_list r.resolved_tsig_secrets,
    read_ddns_config-render_ddns_config,
    read_control_socket-render_control_socket,
    read_logger-render_loggers,
  )

  -- Whatever the resolved secrets and the hooks, the DHCP-DDNS configuration that is rendered reads
  -- back, by the JSON names of the API structs, as the Kea part of the spec it was made from.
  pub read_ddns-render_ddns_json :
      (r : DdnsConfigRenderer)
      → read_ddns_root (render_ddns_json unmarshal r) ≡ some (ddns_part r.spec)
  unfolding read_ddns_root render_ddns_json
  read_ddns-render_ddns_json r = simp get_laws (read_ddns-ddns_object r)
