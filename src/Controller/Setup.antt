-- ===== src/Controller/Setup.antt =====
-- internal/controller/setup.go: what the operator creates on start-up, and the RoleBinding that lets the
-- pods of a custom resource use the SecurityContextConstraints.
pub mod Allowed
use kea_dhcp_operator.Base.{String, Bool, true, false, List, [], ◌∷◌, ◌<>◌}
use kea_dhcp_operator.Api.Maps.{StringMap}
use kea_dhcp_operator.Api.Workloads.{Meta, RoleBinding}
use kea_dhcp_operator.Controller.Client.{
  Outcome, done, failed, Fetched, found, not_found, get_failed, Run,
}
use kea_dhcp_operator.Controller.Objects.{
  Client, Created, created, already_exists, create_failed, role_binding, Key, key_of, Resource,
}
use kea_dhcp_operator.Resources.Names.{service_account_name}

-- The fields of the SecurityContextConstraints, apart from the description.
pub record SecurityContextConstraints : Type 0 where
  pub name : String
  pub allow_privileged_container : Bool
  pub allow_privilege_escalation : Bool
  pub allow_host_dir_volume_plugin : Bool
  pub allow_host_ipc : Bool
  pub allow_host_network : Bool
  pub allow_host_pid : Bool
  pub allow_host_ports : Bool
  pub read_only_root_filesystem : Bool
  pub required_drop_capabilities : List String
  pub allowed_capabilities : List String
  pub default_add_capabilities : List String
  pub run_as_user : String
  pub se_linux_context : String
  pub fs_group : String
  pub supplemental_groups : String
  pub volumes : List String

unfoldable pub kea_scc : SecurityContextConstraints
kea_scc = record {
  name = "kea-dhcp";
  allow_privileged_container = false;
  allow_privilege_escalation = true;
  allow_host_dir_volume_plugin = false;
  allow_host_ipc = false;
  allow_host_network = false;
  allow_host_pid = false;
  allow_host_ports = false;
  read_only_root_filesystem = false;
  required_drop_capabilities = "ALL" ∷ [];
  allowed_capabilities = "NET_RAW" ∷ "NET_BIND_SERVICE" ∷ "NET_ADMIN" ∷ [];
  default_add_capabilities = [];
  run_as_user = "RunAsAny";
  se_linux_context = "MustRunAs";
  fs_group = "MustRunAs";
  supplemental_groups = "RunAsAny";
  volumes = "configMap" ∷ "downwardAPI" ∷ "emptyDir" ∷ "projected" ∷ "secret" ∷ [];
}

-- rbacv1.ClusterRole with its one rule.
pub record ClusterRole : Type 0 where
  pub name : String
  pub labels : StringMap
  pub api_groups : List String
  pub resources : List String
  pub resource_names : List String
  pub verbs : List String

unfoldable pub scc_cluster_role : ClusterRole
scc_cluster_role = record {
  name = "system:openshift:scc:kea-dhcp";
  labels = ("app.kubernetes.io/managed-by", "kea-dhcp-operator") ∷ [];
  api_groups = "security.openshift.io" ∷ [];
  resources = "securitycontextconstraints" ∷ [];
  resource_names = "kea-dhcp" ∷ [];
  verbs = "use" ∷ [];
}

-- The calls of the client on objects that belong to no namespace.
pub record SetupApi (World : Type 0) : Type 0 where
  pub create_namespace : String → World → Created × World
  pub get_scc : String → World → Fetched SecurityContextConstraints
  pub create_scc : SecurityContextConstraints → World → Created × World
  pub get_cluster_role : String → World → Fetched ClusterRole
  pub create_cluster_role : ClusterRole → World → Created × World

-- An object that exists already is as good as a new one.
abbrev pub or_existing : {World : Type 0} → String → Created × World → Outcome × World
or_existing what (created, w) = (done, w)
or_existing what (already_exists e, w) = (done, w)
or_existing what (create_failed e, w) = (failed ("creating " <> what <> ": " <> e), w)

abbrev or_failed : {World : Type 0} → String → Created × World → Outcome × World
or_failed what (created, w) = (done, w)
or_failed what (already_exists e, w) = (failed ("creating " <> what <> ": " <> e), w)
or_failed what (create_failed e, w) = (failed ("creating " <> what <> ": " <> e), w)

module _ {World : Type 0} (api : SetupApi World) where
  unfoldable pub ensure_default_namespace : Run World
  ensure_default_namespace w =
      or_existing "namespace kea-system" (api.create_namespace "kea-system" w)

  abbrev scc_if_missing : Fetched SecurityContextConstraints → Run World
  scc_if_missing (found scc) w = (done, w)
  scc_if_missing not_found w = or_failed "SCC kea-dhcp" (api.create_scc kea_scc w)
  scc_if_missing (get_failed e) w = (failed ("checking SCC kea-dhcp: " <> e), w)

  unfoldable pub ensure_scc : Run World
  ensure_scc w = scc_if_missing (api.get_scc "kea-dhcp" w) w

  -- Any error of Get counts as missing.
  abbrev role_if_missing : Fetched ClusterRole → Run World
  role_if_missing (found role) w = (done, w)
  role_if_missing not_found w =
      or_existing "ClusterRole system:openshift:scc:kea-dhcp"
        (api.create_cluster_role scc_cluster_role w)
  role_if_missing (get_failed e) w =
      or_existing "ClusterRole system:openshift:scc:kea-dhcp"
        (api.create_cluster_role scc_cluster_role w)

  unfoldable pub ensure_scc_cluster_role : Run World
  ensure_scc_cluster_role w =
      role_if_missing (api.get_cluster_role "system:openshift:scc:kea-dhcp" w) w

unfoldable pub scc_role_binding : String → String → RoleBinding
scc_role_binding namespace cr_name = record {
  meta = record {
    name = "kea-dhcp-scc-" <> service_account_name cr_name;
    namespace = namespace;
    labels = ("app.kubernetes.io/managed-by", "kea-dhcp-operator") ∷ [];
  };
  role_ref = record {
    api_group = "rbac.authorization.k8s.io";
    kind = "ClusterRole";
    name = "system:openshift:scc:kea-dhcp";
  };
  subjects =
      record { kind = "ServiceAccount"; name = service_account_name cr_name; namespace = namespace }
      ∷ [];
}

module _ {Objects : Type 0} (client : Client Objects) (namespace cr_name : String) where
  abbrev pub create_binding : Run Objects
  create_binding s =
      or_existing ("SCC RoleBinding for " <> namespace <> "/" <> service_account_name cr_name)
        (client.create (role_binding (scc_role_binding namespace cr_name)) s)

  abbrev pub binding_if_missing : Fetched Resource → Run Objects
  binding_if_missing (found r) s = (done, s)
  binding_if_missing not_found s = create_binding s
  binding_if_missing (get_failed e) s = create_binding s

  unfoldable pub ensure_scc_role_binding : Run Objects
  unfolding scc_role_binding
  ensure_scc_role_binding s =
      binding_if_missing (client.get (key_of (role_binding (scc_role_binding namespace cr_name))) s)
        s
