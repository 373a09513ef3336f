-- ===== src/Tests/RenderTests.antt =====
-- Witnesses of the round trips of the DHCPv6, control agent and DHCP-DDNS configurations.
use kea_dhcp_operator.Controller.Agent.{agent_deployment_params}
use kea_dhcp_operator.Controller.Ddns.{ddns_deployment_params}
use kea_dhcp_operator.Resources.Deployment.{build_deployment}
use kea_dhcp_operator.Tests.Servers
use kea_dhcp_operator.Tests.Servers.{control_agent}
use kea_dhcp_operator.Base.{String, ◌≡◌, refl, Option, none, some, map, ◌∷◌, []}
use kea_dhcp_operator.Json.{Json, get, text}
use kea_dhcp_operator.Base.{◌<>◌}
use kea_dhcp_operator.Api.Kube.{secret_key_ref}
use kea_dhcp_operator.Controller.Secrets.{
  env_name, tsig_entries, ddns_secrets, auth_entries, agent_secrets,
}
use kea_dhcp_operator.Controller.SecretPlaceholders.{
  HaveDistinctNames, secret-ddns_secrets, password-agent_secrets, container_env,
}
use kea_dhcp_operator.Render.ControlAgent.{
  CtrlAgentConfigRenderer, render_agent_json, auth_client_object,
}
use kea_dhcp_operator.Render.Ddns.{DdnsConfigRenderer, render_ddns_json, tsig_key_object}
use kea_dhcp_operator.Render.Dhcp6.{Dhcp6ConfigRenderer, render_json_internal}
use kea_dhcp_operator.Schema.ControlAgent.{
  read_agent_root, agent_part, read_agent-render_agent_json,
}
use kea_dhcp_operator.Schema.Ddns.{read_ddns_root, ddns_part, read_ddns-render_ddns_json}
use kea_dhcp_operator.Schema.Dhcp6.{
  IsReadable, kea_part, read_dhcp6_root, read_dhcp6-render_json_internal,
}
use kea_dhcp_operator.Schema.Dhcp6Hooks.{dhcp6_ha, dhcp6_ha-render_json_internal}
use kea_dhcp_operator.Schema.Ha.{without_address}
use kea_dhcp_operator.Schema.Parts.{HasAddress}
use kea_dhcp_operator.Tests.Parts.{gateway}
use kea_dhcp_operator.Tests.Specs.{
  spec6, ha, agent_spec, ddns_spec, tsig, operator_client, agent_auth,
}

-- A parser of JSON that accepts nothing.
abbrev reject : String → Option Json
reject _ = none

abbrev renderer : Dhcp6ConfigRenderer
renderer = record {
  spec = spec6;
  lease_db_creds = record { user = "$KEA_LEASE_DB_USER"; password = "$KEA_LEASE_DB_PASSWORD" };
  hosts_db_creds = record { user = ""; password = "" };
  hosts_dbs_creds = [];
}

gateway_named : HasAddress (some gateway)
gateway_named e = cc

readable : IsReadable spec6
readable = record { subnets = (gateway_named, tt); networks = tt; threads = tt }

dhcp6_example :
    read_dhcp6_root (render_json_internal reject renderer "kea-2") ≡ some (kea_part spec6)
dhcp6_example = read_dhcp6-render_json_internal reject renderer "kea-2" readable

ha6_example :
    dhcp6_ha (render_json_internal reject renderer "kea-2")
    ≡ some (record ha { this_server_name = "kea-2"; peers = map without_address ha.peers })
ha6_example = dhcp6_ha-render_json_internal reject renderer "kea-2" tt refl refl

abbrev agent : CtrlAgentConfigRenderer
agent = record {
  spec = agent_spec;
  resolved_auth_passwords = ("operator", "$KEA_AUTH_PASSWORD_0") ∷ [];
}

agent_example : read_agent_root (render_agent_json reject agent) ≡ some (agent_part agent_spec)
agent_example = read_agent-render_agent_json reject agent refl refl

abbrev ddns : DdnsConfigRenderer
ddns = record { spec = ddns_spec; resolved_tsig_secrets = ("k1", "$KEA_TSIG_SECRET_0") ∷ [] }

ddns_example : read_ddns_root (render_ddns_json reject ddns) ≡ some (ddns_part ddns_spec)
ddns_example = read_ddns-render_ddns_json reject ddns

distinct_keys : HaveDistinctNames (tsig_entries ddns_spec)
distinct_keys = (tt, tt)

tsig_example :
    (get "secret" (tsig_key_object (ddns_secrets ddns_spec).1.resolved_tsig_secrets tsig)
      ≡ some (text ("$" <> env_name "KEA_TSIG_SECRET_" 0)))
    × (container_env
          (env_name "KEA_TSIG_SECRET_" 0)
          (build_deployment (ddns_deployment_params Servers.ddns "h"))
        ≡ some (some (secret_key_ref (record { name = "tsig"; key = "secret" }))))
tsig_example =
    secret-ddns_secrets Servers.ddns "h" 0 tsig (record { name = "tsig"; key = "secret" })
      distinct_keys refl refl

distinct_clients : HaveDistinctNames (auth_entries agent_spec)
distinct_clients = (tt, tt)

password_example :
    (get "password"
        (auth_client_object (agent_secrets agent_spec).1.resolved_auth_passwords operator_client)
      ≡ some (text ("$" <> env_name "KEA_AUTH_PASSWORD_" 0)))
    × (container_env
          (env_name "KEA_AUTH_PASSWORD_" 0)
          (build_deployment (agent_deployment_params control_agent "h"))
        ≡ some (some (secret_key_ref (record { name = "agent"; key = "password" }))))
password_example =
    password-agent_secrets control_agent "h" agent_auth 0 operator_client
      (record { name = "agent"; key = "password" }) refl distinct_clients refl refl
