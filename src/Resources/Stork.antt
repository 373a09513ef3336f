-- ===== src/Resources/Stork.antt =====
-- internal/resources/stork.go: the parameters and the environment of the Stork agent's container.
use kea_dhcp_operator.Base.{
  String, true, false, ◌≡◌, ◌∙◌, Option, none, some, List, [], ◌∷◌, ◌++◌, ◌==◌, not, if◌then◌else◌,
  get_or, arith,
}
use kea_dhcp_operator.Base.Int.{ℤ, pos}
use kea_dhcp_operator.Base.Decimal.{decimal_ℤ}
use kea_dhcp_operator.Json.{Json}
use kea_dhcp_operator.Api.Kube.{EnvVar, EnvSource, literal, field_ref}
use kea_dhcp_operator.Api.Common.{StorkAgentConfig}
use kea_dhcp_operator.Api.Workloads.{Capabilities, Container}

pub record StorkSidecarParams : Type 0 where
  pub image : String
  pub image_pull_policy : String
  pub resources : Json
  pub server_url : String
  pub server_token : String
  pub port : ℤ
  pub prometheus_port : ℤ
  pub extra_env : List EnvVar

abbrev pub default_stork_agent_image : String
default_stork_agent_image = "quay.io/mooyeg/stork-agent:v2.4.0-1"

unfoldable pub sidecar_params : StorkAgentConfig → String → StorkSidecarParams
sidecar_params cfg server_token = record {
  image = if cfg.image == "" then default_stork_agent_image else cfg.image;
  image_pull_policy = cfg.image_pull_policy;
  resources = cfg.resources;
  server_url = cfg.server_url;
  server_token = server_token;
  port = get_or cfg.port (pos 8080);
  prometheus_port = get_or cfg.prometheus_port (pos 9547);
  extra_env = cfg.env;
}

-- `ResolveStorkParams`, whose error is always nil.
unfoldable pub resolve_stork_params : Option StorkAgentConfig → String → Option StorkSidecarParams
resolve_stork_params none server_token = none
resolve_stork_params (some cfg) server_token =
    if not cfg.enabled then none else some (sidecar_params cfg server_token)

abbrev env_var : String → String → EnvVar
env_var name value = record { name = name; source = literal value }

-- The environment that depends on the Stork server.
unfoldable pub server_env : StorkSidecarParams → List EnvVar
server_env sp =
    if not (sp.server_url == "")
    then env_var "STORK_AGENT_SERVER_URL" sp.server_url
      ∷ env_var "STORK_AGENT_NON_INTERACTIVE" "true"
      ∷ record { name = "STORK_AGENT_HOST"; source = field_ref "status.podIP" }
      ∷ (if not (sp.server_token == "")
          then env_var "STORK_AGENT_SERVER_TOKEN" sp.server_token ∷ []
          else [])
    else env_var "STORK_AGENT_LISTEN_PROMETHEUS_ONLY" "true" ∷ []

unfoldable pub own_env : StorkSidecarParams → List EnvVar
own_env sp =
    env_var "STORK_AGENT_PORT" (decimal_ℤ sp.port)
    ∷ env_var "STORK_AGENT_PROMETHEUS_KEA_EXPORTER_PORT" (decimal_ℤ sp.prometheus_port)
    ∷ env_var "STORK_AGENT_PROMETHEUS_KEA_EXPORTER_ADDRESS" "0.0.0.0"
    ∷ server_env sp

-- The environment of `buildStorkAgentContainer`: the user's own variables come last.
unfoldable pub stork_agent_env : StorkSidecarParams → List EnvVar
stork_agent_env sp = own_env sp ++ sp.extra_env

abbrev pub config_mount_path : String
config_mount_path = "/etc/kea"

abbrev pub run_volume_name : String
run_volume_name = "kea-run"

abbrev pub run_mount_path : String
run_mount_path = "/var/run/kea"

-- A container that gets no capability.
abbrev pub drop_all : Capabilities
drop_all = record { drop = "ALL" ∷ []; add = [] }

-- `buildStorkAgentContainer`
unfoldable pub stork_agent_container : StorkSidecarParams → String → Container
unfolding stork_agent_env
stork_agent_container sp config_volume_name = record {
  name = "stork-agent";
  image = sp.image;
  image_pull_policy = sp.image_pull_policy;
  command = [];
  env = stork_agent_env sp;
  resources = sp.resources;
  ports =
      record { name = "stork-agent"; container_port = sp.port; protocol = "TCP" }
      ∷ record { name = "stork-prom"; container_port = sp.prometheus_port; protocol = "TCP" }
      ∷ [];
  volume_mounts =
      record { name = config_volume_name; mount_path = config_mount_path; read_only = true }
      ∷ record { name = run_volume_name; mount_path = run_mount_path; read_only = false }
      ∷ [];
  readiness_probe = none;
  liveness_probe = none;
  capabilities = drop_all;
}

-- The value that a container sees for a variable: the last one of the name counts.
unfoldable pub find_env : String → List EnvVar → Option EnvSource
find_env name [] = none
find_env name (e ∷ es) =
    let rest = find_env name es in
    elim rest [ none ↦ (if e.name == name then some e.source else none) | some s ↦ some s ]

-- The last value of a name in a list that is followed by another.
find_env-append :
    (name : String) (es fs : List EnvVar)
    → find_env name fs ≡ none
    → find_env name (es ++ fs) ≡ find_env name es
unfolding find_env
find_env-append name [] fs h = h
find_env-append name (e ∷ es) fs h = rw (find_env-append name es fs h)

-- An agent either has the URL of a server, with the token if there is one, or only serves
-- Prometheus: never both and never neither, if the user's own variables do not set these names.
pub find_env-stork_agent_env :
    (sp : StorkSidecarParams)
    → find_env "STORK_AGENT_LISTEN_PROMETHEUS_ONLY" sp.extra_env ≡ none
    → find_env "STORK_AGENT_SERVER_URL" sp.extra_env ≡ none
    → find_env "STORK_AGENT_SERVER_TOKEN" sp.extra_env ≡ none
    → (find_env "STORK_AGENT_LISTEN_PROMETHEUS_ONLY" (stork_agent_env sp)
        ≡ (if sp.server_url == "" then some (literal "true") else none))
      × (find_env "STORK_AGENT_SERVER_URL" (stork_agent_env sp)
          ≡ (if sp.server_url == "" then none else some (literal sp.server_url)))
      × (find_env "STORK_AGENT_SERVER_TOKEN" (stork_agent_env sp) ≡ (
          if sp.server_url == ""
          then none
          else if sp.server_token == ""
          then none
          else some (literal sp.server_token)))
unfolding find_env stork_agent_env own_env server_env
find_env-stork_agent_env sp a b c = (
  find_env-append "STORK_AGENT_LISTEN_PROMETHEUS_ONLY" (own_env sp) sp.extra_env a ∙ ground arith,
  find_env-append "STORK_AGENT_SERVER_URL" (own_env sp) sp.extra_env b ∙ ground arith,
  find_env-append "STORK_AGENT_SERVER_TOKEN" (own_env sp) sp.extra_env c ∙ ground arith,
)
