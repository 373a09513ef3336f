-- ===== src/Render/Ddns.antt =====
-- internal/kea/ddns_config.go: the configuration of DHCP-DDNS, as the JSON value that is printed. A nil
-- map of resolved secrets gives what an empty one gives.
use kea_dhcp_operator.Base.{String, Option, none, some, List, [], ◌▸◌}
use kea_dhcp_operator.Json.{
  Json, number, text, object, Object, end, set, set_if_some, set_if_not_nil, set_if_not_empty,
  set_if_any,
}
use kea_dhcp_operator.Api.Ddns.{DdnsConfig, DdnsDomain, DnsServer, KeaDhcpDdnsSpec, TsigKey}
use kea_dhcp_operator.Render.ControlAgent.{text_at}
use kea_dhcp_operator.Render.Hooks.{render_hooks_libraries}
use kea_dhcp_operator.Render.Parts.{render_control_socket, render_loggers}

pub record DdnsConfigRenderer : Type 0 where
  pub spec : KeaDhcpDdnsSpec
  pub resolved_tsig_secrets : List (String × String)

unfoldable pub new_ddns_config_renderer : KeaDhcpDdnsSpec → DdnsConfigRenderer
new_ddns_config_renderer spec = record { spec = spec; resolved_tsig_secrets = [] }

unfoldable pub tsig_key_object : List (String × String) → TsigKey → Object
tsig_key_object secrets k =
    end
    ▸ set "name" (text k.name)
    ▸ set "algorithm" (text k.algorithm)
    ▸ set_if_not_nil "digest-bits" number k.digest_bits
    ▸ set_if_not_empty "secret" (text_at k.name secrets)

unfoldable pub dns_server_object : DnsServer → Object
dns_server_object srv =
    end ▸ set "ip-address" (text srv.ip_address) ▸ set_if_not_nil "port" number srv.port

unfoldable pub ddns_domain_object : DdnsDomain → Object
ddns_domain_object d =
    end
    ▸ set "name" (text d.name)
    ▸ set_if_not_empty "key-name" d.key_name
    ▸ set_if_any "dns-servers" (λ srv. object (dns_server_object srv)) d.dns_servers

unfoldable pub ddns_config_object : DdnsConfig → Object
ddns_config_object cfg =
    end ▸ set_if_any "ddns-domains" (λ d. object (ddns_domain_object d)) cfg.ddns_domains

-- One direction of DDNS, if the spec has it.
unfoldable pub render_ddns_config : Option DdnsConfig → Option Json
render_ddns_config none = none
render_ddns_config (some cfg) = some (object (ddns_config_object cfg))

module _ (unmarshal : String → Option Json) where
  -- The map under "DhcpDdns".
  unfoldable pub ddns_object : DdnsConfigRenderer → Object
  ddns_object r =
      end
      ▸ set_if_not_empty "ip-address" s.ip_address
      ▸ set_if_not_nil "port" number s.port
      ▸ set_if_not_nil "dns-server-timeout" number s.dns_server_timeout
      ▸ set_if_not_empty "ncr-protocol" s.ncr_protocol
      ▸ set_if_not_empty "ncr-format" s.ncr_format
      ▸ set_if_any "tsig-keys" (λ k. object (tsig_key_object r.resolved_tsig_secrets k)) s.tsig_keys
      ▸ set_if_some "forward-ddns" (render_ddns_config s.forward_ddns)
      ▸ set_if_some "reverse-ddns" (render_ddns_config s.reverse_ddns)
      ▸ set_if_some "control-socket" (render_control_socket s.control_socket)
      ▸ set_if_any "hooks-libraries" object (render_hooks_libraries unmarshal s.hooks_libraries)
      ▸ set_if_some "loggers" (render_loggers s.loggers)
    where
      open r use {spec as s}

  -- `RenderJSON`.
  unfoldable pub render_ddns_json : DdnsConfigRenderer → Json
  render_ddns_json r = object (set "DhcpDdns" (object (ddns_object r)) end)
