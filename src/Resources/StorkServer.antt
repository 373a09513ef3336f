-- ===== src/Resources/StorkServer.antt =====
-- internal/resources/stork_server.go: the objects of the Stork server.
use kea_dhcp_operator.Resources.Stork.{drop_all}
use kea_dhcp_operator.Resources.Names.{deployment_name, service_name}
use kea_dhcp_operator.Base.Int.{eq_ℤ, pos, ℤ}
use kea_dhcp_operator.Resources.Labels.{common_labels}
use kea_dhcp_operator.Base.Decimal.{decimal_ℤ}
use kea_dhcp_operator.Api.Maps.{StringMap}
use kea_dhcp_operator.Api.Workloads.{
  by_name, DataObject, Probe, Container, Service, Deployment, Route,
}
use kea_dhcp_operator.Api.Kube.{literal, secret_key_ref, EnvVar, LocalObjectReference, Affinity}
use kea_dhcp_operator.Json.{null, Json}
use kea_dhcp_operator.Base.{
  String, [], ◌∷◌, none, some, false, get_or, ◌<>◌, if◌then◌else◌, List, Option, ◌==◌, ◌++◌, Bool,
  when, not,
}

pub record StorkServerParams : Type 0 where
  pub namespace : String
  pub cr_name : String
  pub image : String
  pub image_pull_policy : String
  pub replicas : Option ℤ
  pub resources : Json
  pub port : ℤ
  pub enable_metrics : Bool
  pub image_pull_secrets : List LocalObjectReference
  pub service_account_name : String
  pub db_host : String
  pub db_port : ℤ
  pub db_name : String
  pub db_ssl_mode : String
  pub node_selector : StringMap
  pub tolerations : List Json
  pub affinity : Option Affinity
  pub pod_annotations : StringMap
  pub secret_env_vars : List EnvVar
  pub admin_secret_name : String
  pub server_token_secret_name : String

abbrev pub default_stork_server_image : String
default_stork_server_image = "quay.io/mooyeg/stork-server:v2.4.0"

abbrev pub default_stork_server_port : ℤ
default_stork_server_port = pos 8080

abbrev pub port_or_default : ℤ → ℤ
port_or_default port = if eq_ℤ port (pos 0) then default_stork_server_port else port

unfoldable migration_script : String
migration_script =
    "set -e\n" <> "stork-tool db-init \\\n" <> "  --db-host \"$STORK_DATABASE_HOST\" \\\n"
    <> "  --db-port \"$STORK_DATABASE_PORT\" \\\n" <> "  --db-name \"$STORK_DATABASE_NAME\" \\\n"
    <> "  --db-user \"$STORK_DATABASE_USER_NAME\" \\\n"
    <> "  --db-password \"$STORK_DATABASE_PASSWORD\" \\\n"
    <> "  --db-sslmode \"$STORK_DATABASE_SSLMODE\"\n" <> "stork-tool db-up \\\n"
    <> "  --db-host \"$STORK_DATABASE_HOST\" \\\n" <> "  --db-port \"$STORK_DATABASE_PORT\" \\\n"
    <> "  --db-name \"$STORK_DATABASE_NAME\" \\\n"
    <> "  --db-user \"$STORK_DATABASE_USER_NAME\" \\\n"
    <> "  --db-password \"$STORK_DATABASE_PASSWORD\" \\\n"
    <> "  --db-sslmode \"$STORK_DATABASE_SSLMODE\"\n" <> "echo \"Database migration complete\"\n"

unfoldable wrapper_script : ℤ → String
wrapper_script port =
    "#!/bin/sh\n"
    <> "# Start stork-server in the background.\n"
    <> "stork-server &\n"
    <> "SERVER_PID=$!\n"
    <> "\n"
    <> "# Wait for the server to become ready (up to 120 seconds).\n"
    <> "for i in $(seq 1 60); do\n"
    <> "  if curl -sf http://localhost:"
    <> decimal_ℤ port
    <> "/api/version > /dev/null 2>&1; then\n"
    <> "    break\n"
    <> "  fi\n"
    <> "  sleep 2\n"
    <> "done\n"
    <> "\n"
    <> "# Extra delay to ensure API is fully initialized.\n"
    <> "sleep 5\n"
    <> "\n"
    <> "# Save password to a file to avoid escaping issues in JSON.\n"
    <> "printf '%s' \"$STORK_ADMIN_PASSWORD\" > /tmp/admin_pw\n"
    <> "ADMIN_PW=\"$(cat /tmp/admin_pw)\"\n"
    <> "\n"
    <> "# Try to log in with the desired password (already set from previous run).\n"
    <> "RESP=$(curl -s -o /dev/null -w '%{http_code}' -X POST http://localhost:"
    <> decimal_ℤ port
    <> "/api/sessions \\\n"
    <> "  -H 'Content-Type: application/json' \\\n"
    <> "  -d \"{\\\"authenticationMethodId\\\":\\\"internal\\\",\\\"identifier\\\":\\\"admin\\\",\\\"secret\\\":\\\"${ADMIN_PW}\\\"}\")\n"
    <> "\n"
    <> "if [ \"$RESP\" = \"200\" ]; then\n"
    <> "  echo \"Admin password already set correctly\"\n"
    <> "else\n"
    <> "  # Log in with default password and change it.\n"
    <> "  curl -s -c /tmp/cookies -X POST http://localhost:"
    <> decimal_ℤ port
    <> "/api/sessions \\\n"
    <> "    -H 'Content-Type: application/json' \\\n"
    <> "    -d '{\"authenticationMethodId\":\"internal\",\"identifier\":\"admin\",\"secret\":\"admin\"}' > /tmp/login_result 2>&1\n"
    <> "\n"
    <> "  LOGIN_CODE=$?\n"
    <> "  echo \"Login result: $(cat /tmp/login_result)\"\n"
    <> "\n"
    <> "  curl -s -b /tmp/cookies -X PUT http://localhost:"
    <> decimal_ℤ port
    <> "/api/users/1/password \\\n"
    <> "    -H 'Content-Type: application/json' \\\n"
    <> "    -d \"{\\\"oldpassword\\\":\\\"admin\\\",\\\"newpassword\\\":\\\"${ADMIN_PW}\\\"}\" > /tmp/pw_result 2>&1\n"
    <> "\n"
    <> "  if grep -q '\"message\"' /tmp/pw_result; then\n"
    <> "    echo \"Warning: password change response: $(cat /tmp/pw_result)\"\n"
    <> "  else\n"
    <> "    echo \"Admin password updated from Secret\"\n"
    <> "  fi\n"
    <> "  rm -f /tmp/cookies /tmp/login_result /tmp/pw_result\n"
    <> "fi\n"
    <> "rm -f /tmp/admin_pw\n"
    <> "\n"
    <> "# Forward signals to stork-server and wait.\n"
    <> "trap \"kill $SERVER_PID\" TERM INT\n"
    <> "wait $SERVER_PID\n"

abbrev text_env : String → String → EnvVar
text_env name value = record { name = name; source = literal value }

abbrev secret_env : String → String → String → EnvVar
secret_env name secret_name key = record {
  name = name;
  source = secret_key_ref (record { name = secret_name; key = key });
}

-- The environment of both containers.
unfoldable pub stork_server_env : StorkServerParams → List EnvVar
stork_server_env p =
    (text_env "STORK_DATABASE_HOST" p.db_host
      ∷ text_env "STORK_DATABASE_PORT" (decimal_ℤ p.db_port)
      ∷ text_env "STORK_DATABASE_NAME" p.db_name
      ∷ text_env "STORK_DATABASE_SSLMODE" p.db_ssl_mode
      ∷ text_env "STORK_REST_HOST" "0.0.0.0"
      ∷ text_env "STORK_REST_PORT" (decimal_ℤ (port_or_default p.port))
      ∷ [])
    ++ (when p.enable_metrics (text_env "STORK_SERVER_ENABLE_METRICS" "true" ∷ [])
        ++ (when (not (p.server_token_secret_name == ""))
              (secret_env "STORK_SERVER_AGENT_TOKEN" p.server_token_secret_name "token" ∷ [])
            ++ p.secret_env_vars))

abbrev version_probe : ℤ → Probe
version_probe seconds = record {
  path = "/api/version";
  port = "http";
  initial_delay_seconds = seconds;
  period_seconds = seconds;
}

abbrev stork_image : StorkServerParams → String
stork_image p = if p.image == "" then default_stork_server_image else p.image

unfoldable pub migration_container : StorkServerParams → Container
unfolding migration_script stork_server_env
migration_container p = record {
  name = "db-migrate";
  image = stork_image p;
  image_pull_policy = p.image_pull_policy;
  command = "sh" ∷ "-c" ∷ migration_script ∷ [];
  env = stork_server_env p ++ p.secret_env_vars;
  resources = null;
  ports = [];
  volume_mounts = [];
  readiness_probe = none;
  liveness_probe = none;
  capabilities = drop_all;
}

unfoldable pub stork_server_container : StorkServerParams → Container
unfolding wrapper_script stork_server_env
stork_server_container p = record {
  name = "stork-server";
  image = stork_image p;
  image_pull_policy = p.image_pull_policy;
  command = "sh" ∷ "-c" ∷ wrapper_script (port_or_default p.port) ∷ [];
  env =
      stork_server_env p ++ (secret_env "STORK_ADMIN_PASSWORD" p.admin_secret_name "password" ∷ []);
  resources = p.resources;
  ports = record { name = "http"; container_port = port_or_default p.port; protocol = "TCP" } ∷ [];
  volume_mounts = [];
  readiness_probe = some (version_probe (pos 10));
  liveness_probe = some (version_probe (pos 30));
  capabilities = drop_all;
}

unfoldable pub build_stork_server_deployment : StorkServerParams → Deployment
unfolding migration_container stork_server_container common_labels
build_stork_server_deployment p = record {
  meta = record {
    name = deployment_name p.cr_name "stork-server";
    namespace = p.namespace;
    labels = common_labels p.cr_name "stork-server";
  };
  spec = record {
    replicas = some (get_or p.replicas (pos 1));
    match_labels = common_labels p.cr_name "stork-server";
    template = record {
      labels = common_labels p.cr_name "stork-server";
      annotations = p.pod_annotations;
      spec = record {
        service_account_name = p.service_account_name;
        host_network = false;
        share_process_namespace = none;
        init_containers = migration_container p ∷ [];
        containers = stork_server_container p ∷ [];
        volumes = [];
        node_selector = p.node_selector;
        tolerations = p.tolerations;
        affinity = p.affinity;
        image_pull_secrets = p.image_pull_secrets;
      };
    };
  };
}

unfoldable pub build_stork_server_service : String → String → ℤ → Service
unfolding common_labels
build_stork_server_service namespace cr_name port = record {
  meta = record {
    name = service_name cr_name "stork-server";
    namespace = namespace;
    labels = common_labels cr_name "stork-server";
  };
  spec = record {
    cluster_ip = "";
    cluster_ips = [];
    publish_not_ready_addresses = false;
    selector = common_labels cr_name "stork-server";
    ports =
        record {
          name = "http";
          port = port_or_default port;
          target_port = by_name "http";
          protocol = "TCP";
        }
        ∷ [];
  };
}

unfoldable pub build_stork_server_admin_secret : String → String → StringMap → String → DataObject
build_stork_server_admin_secret namespace secret_name labels password = record {
  meta = record { name = secret_name; namespace = namespace; labels = labels };
  entries = ("username", "admin") ∷ ("password", password) ∷ [];
}

unfoldable pub build_stork_server_token_secret : String → String → StringMap → String → DataObject
build_stork_server_token_secret namespace secret_name labels token = record {
  meta = record { name = secret_name; namespace = namespace; labels = labels };
  entries = ("token", token) ∷ [];
}

unfoldable pub build_stork_server_route : String → String → Route
unfolding common_labels
build_stork_server_route namespace cr_name = record {
  meta = record {
    name = service_name cr_name "stork-server";
    namespace = namespace;
    labels = common_labels cr_name "stork-server";
  };
  spec = record {
    service = service_name cr_name "stork-server";
    target_port = "http";
    termination = "edge";
  };
}
