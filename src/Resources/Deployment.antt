-- ===== src/Resources/Deployment.antt =====
-- internal/resources/deployment.go: the Deployment of a component, and the shell commands that start it.
pub mod Pods
use kea_dhcp_operator.Base.{
  String, Bool, true, false, Option, none, some, List, [], ◌∷◌, ◌++◌, ◌<>◌, ◌==◌, ◌&&◌, not,
  is_empty, if◌then◌else◌, when, Result, ok, error,
}
use kea_dhcp_operator.Base.Int.{ℤ}
use kea_dhcp_operator.Json.{Json}
use kea_dhcp_operator.Api.Kube.{Affinity, EnvVar, LocalObjectReference}
use kea_dhcp_operator.Api.Maps.{StringMap, put}
use kea_dhcp_operator.Api.Workloads.{
  Capabilities, Container, Deployment, Volume, VolumeMount, config_map, empty_dir, secret,
}
use kea_dhcp_operator.Resources.Images.{
  default_image_for_component, config_volume_name, config_template_mount_path,
  config_writable_volume_name, lease_volume_name, lease_mount_path, tls_volume_name, tls_mount_path,
  config_hash_annotation,
}
use kea_dhcp_operator.Resources.Labels.{common_labels}
use kea_dhcp_operator.Resources.Names.{deployment_name}
use kea_dhcp_operator.Resources.Stork.{
  StorkSidecarParams, config_mount_path, run_mount_path, run_volume_name, stork_agent_container,
}
use kea_dhcp_operator.Resources.Validate.{validate_nad_shell_inputs}

pub record DeploymentParams : Type 0 where
  pub namespace : String
  pub cr_name : String
  pub component : String
  pub command : String
  pub config_file_name : String
  pub config_map_name : String
  pub image : String
  pub image_pull_policy : String
  pub replicas : Option ℤ
  pub resources : Json
  pub host_network : Bool
  pub node_selector : StringMap
  pub tolerations : List Json
  pub affinity : Option Affinity
  pub tls_secret_name : String
  pub service_account_name : String
  pub config_hash : String
  pub image_pull_secrets : List LocalObjectReference
  pub pod_annotations : StringMap
  pub nad_interface : String
  pub nad_subnet : String
  pub stork_agent : Option StorkSidecarParams
  pub secret_env_vars : List EnvVar

abbrev pub is_ok : Result Unit → Bool
is_ok (ok u) = true
is_ok (error e) = false

abbrev pub volume_mount : String → String → Bool → VolumeMount
volume_mount name mount_path read_only = record {
  name = name;
  mount_path = mount_path;
  read_only = read_only;
}

-- The capabilities of a container that runs Kea.
unfoldable pub kea_capabilities : String → Capabilities
kea_capabilities nad_interface = record {
  drop = "ALL" ∷ [];
  add = "NET_RAW" ∷ "NET_BIND_SERVICE" ∷ when (not (nad_interface == "")) ("NET_ADMIN" ∷ []);
}

-- The Stork agent beside Kea, and the process namespace that the two share.
unfoldable pub sidecar : Option StorkSidecarParams → String → List Container
unfolding stork_agent_container
sidecar none config_volume = []
sidecar (some sp) config_volume = stork_agent_container sp config_volume ∷ []

unfoldable pub shared_namespace : Option StorkSidecarParams → Option Bool
shared_namespace none = none
shared_namespace (some sp) = some true

-- The sed commands, one after the other, that put the values of the environment in place of their
-- names.
unfoldable pub sed_expr : List EnvVar → String
sed_expr [] = ""
sed_expr (ev ∷ evs) =
    "sed -i \"s|\\$"
    <> ev.name
    <> "|${"
    <> ev.name
    <> "}|g\" "
    <> config_mount_path
    <> "/*.json; "
    <> sed_expr evs

-- The arguments, joined by spaces and not quoted.
unfoldable pub join_args : List String → String
join_args [] = ""
join_args (arg ∷ []) = arg
join_args (arg ∷ arg' ∷ args) = arg <> " " <> join_args (arg' ∷ args)

unfoldable pub build_secret_env_subst_command : List EnvVar → List String → List String
unfolding sed_expr join_args
build_secret_env_subst_command env_vars orig_cmd =
    "sh"
    ∷ "-c"
    ∷ ("cp "
        <> config_template_mount_path
        <> "/* "
        <> config_mount_path
        <> "/ && "
        <> sed_expr env_vars
        <> "exec "
        <> join_args orig_cmd)
    ∷ []

-- The mounts of Kea's container, with secrets in the environment or not, and with TLS or not.
unfoldable pub deployment_volume_mounts : Bool → Bool → List VolumeMount
deployment_volume_mounts secrets tls =
    (volume_mount config_volume_name
        (if secrets then config_template_mount_path else config_mount_path) true
      ∷ volume_mount run_volume_name run_mount_path false
      ∷ volume_mount lease_volume_name lease_mount_path false
      ∷ [])
    ++ (when secrets (volume_mount config_writable_volume_name config_mount_path false ∷ [])
        ++ when tls (volume_mount tls_volume_name tls_mount_path true ∷ []))

module _ (p : DeploymentParams) where
  unfoldable pub has_secret_env_vars : Bool
  has_secret_env_vars = not (is_empty p.secret_env_vars)

  abbrev pub has_tls_secret : Bool
  has_tls_secret = not (p.tls_secret_name == "")

  unfoldable pub deployment_volumes : Bool → Bool → List Volume
  deployment_volumes secrets tls =
      (record { name = config_volume_name; source = config_map p.config_map_name }
        ∷ record { name = run_volume_name; source = empty_dir }
        ∷ record { name = lease_volume_name; source = empty_dir }
        ∷ [])
      ++ (when secrets (record { name = config_writable_volume_name; source = empty_dir } ∷ [])
          ++ when tls (record { name = tls_volume_name; source = secret p.tls_secret_name } ∷ []))

  -- Assigns subnet base + 2 to the attached interface, then starts Kea.
  unfoldable pub deployment_nad_script : String
  deployment_nad_script =
      "IFS='./' read a b c d prefix <<EOF\n" <> p.nad_subnet
      <> "\nEOF\nip_last=$((d + 2)); ip addr add ${a}.${b}.${c}.${ip_last}/${prefix} dev "
      <> p.nad_interface
      <> " 2>/dev/null || true; echo \"Assigned ${a}.${b}.${c}.${ip_last}/${prefix} to "
      <> p.nad_interface <> "\"; exec " <> p.command <> " -c " <> config_mount_path <> "/"
      <> p.config_file_name

  -- `mainCmd`, before it is wrapped.
  unfoldable pub deployment_kea_command : List String
  unfolding deployment_nad_script
  deployment_kea_command =
      if not (p.nad_interface == "")
        && (not (p.nad_subnet == "")
            && is_ok (validate_nad_shell_inputs p.nad_interface p.nad_subnet p.command))
      then "sh" ∷ "-c" ∷ deployment_nad_script ∷ []
      else p.command ∷ "-c" ∷ (config_mount_path <> "/" <> p.config_file_name) ∷ []

  unfoldable pub deployment_command : List String
  unfolding has_secret_env_vars deployment_kea_command
  deployment_command =
      if has_secret_env_vars
      then build_secret_env_subst_command p.secret_env_vars deployment_kea_command
      else deployment_kea_command

  unfoldable pub deployment_container : Container
  unfolding deployment_command deployment_volume_mounts
  deployment_container = record {
    name = p.component;
    image = if p.image == "" then default_image_for_component p.component else p.image;
    image_pull_policy = p.image_pull_policy;
    command = deployment_command;
    env = p.secret_env_vars;
    resources = p.resources;
    ports = [];
    volume_mounts = deployment_volume_mounts has_secret_env_vars has_tls_secret;
    readiness_probe = none;
    liveness_probe = none;
    capabilities = kea_capabilities p.nad_interface;
  }

  unfoldable pub build_deployment : Deployment
  unfolding deployment_container deployment_volumes common_labels
  build_deployment = record {
    meta = record {
      name = deployment_name p.cr_name p.component;
      namespace = p.namespace;
      labels = common_labels p.cr_name p.component;
    };
    spec = record {
      replicas = p.replicas;
      match_labels = common_labels p.cr_name p.component;
      template = record {
        labels = common_labels p.cr_name p.component;
        annotations = put config_hash_annotation p.config_hash p.pod_annotations;
        spec = record {
          service_account_name = p.service_account_name;
          host_network = p.host_network;
          share_process_namespace = shared_namespace p.stork_agent;
          init_containers = [];
          containers = deployment_container ∷ sidecar p.stork_agent config_volume_name;
          volumes = deployment_volumes has_secret_env_vars has_tls_secret;
          node_selector = p.node_selector;
          tolerations = p.tolerations;
          affinity = p.affinity;
          image_pull_secrets = p.image_pull_secrets;
        };
      };
    };
  }
