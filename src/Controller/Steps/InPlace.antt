-- ===== src/Controller/Steps/InPlace.antt =====
-- What a reconciliation is to leave of a ConfigMap and of a workload, said without the functions that
-- internal/controller/reconciler.go applies to them.
use kea_dhcp_operator.Resources.StatefulSet.Params.{StatefulSetParams}
use kea_dhcp_operator.Resources.StatefulSet.{build_stateful_set}
use kea_dhcp_operator.Resources.Deployment.{build_deployment, deployment_volumes, DeploymentParams}
use kea_dhcp_operator.Api.Workloads.{Deployment, StatefulSet, DataObject, Meta}
use kea_dhcp_operator.Api.Maps.{data_at, data_at-put}
use kea_dhcp_operator.Api.Workloads
use kea_dhcp_operator.Base.{◌≡◌, refl, String, get_elem?, some}
use kea_dhcp_operator.Controller.Objects.{
  Resource, written, apply_desired, config_map, deployment, stateful_set,
}
use kea_dhcp_operator.Controller.Client.{Fetched, found, not_found, get_failed}

abbrev with_labels_of : Meta → Meta → Meta
with_labels_of live desired = record {
  name = live.name;
  namespace = live.namespace;
  labels = desired.labels;
}

-- An object in place of what is there: of the live one the name and the namespace stay, if there is one.
abbrev pub in_place_of : Fetched Resource → Resource → Resource
in_place_of (found (config_map l)) (config_map d) =
    config_map (record { meta = with_labels_of l.meta d.meta; entries = d.entries })
in_place_of (found (deployment l)) (deployment d) =
    deployment (record { meta = with_labels_of l.meta d.meta; spec = d.spec })
in_place_of (found (stateful_set l)) (stateful_set d) =
    stateful_set (record { meta = with_labels_of l.meta d.meta; spec = d.spec })
in_place_of (found l) d = l
in_place_of not_found d = d
in_place_of (get_failed e) d = d

pub written-config_map :
    (x : Fetched Resource) (d : DataObject)
    → written x (config_map d) (apply_desired (config_map d)) ≡ in_place_of x (config_map d)
unfolding apply_desired
written-config_map (found (config_map l)) d = refl
written-config_map (found l) d = refl
written-config_map not_found d = refl
written-config_map (get_failed e) d = refl

pub written-deployment :
    (x : Fetched Resource) (d : Deployment)
    → written x (deployment d) (apply_desired (deployment d)) ≡ in_place_of x (deployment d)
unfolding apply_desired
written-deployment (found (deployment l)) d = refl
written-deployment (found l) d = refl
written-deployment not_found d = refl
written-deployment (get_failed e) d = refl

pub written-stateful_set :
    (x : Fetched Resource) (d : StatefulSet)
    → written x (stateful_set d) (apply_desired (stateful_set d)) ≡ in_place_of x (stateful_set d)
unfolding apply_desired
written-stateful_set (found (stateful_set l)) d = refl
written-stateful_set (found l) d = refl
written-stateful_set not_found d = refl
written-stateful_set (get_failed e) d = refl

-- The pods of a Deployment have a ConfigMap as their first volume, and the hash of the configuration
-- among their annotations.
abbrev pub RunsOn : Deployment → String → String → Type 0
RunsOn d name hash =
    (get_elem? d.spec.template.spec.volumes 0
      ≡ some (record { name = "kea-config"; source = Workloads.config_map name }))
    × (data_at "kea.openshift.io/config-hash" d.spec.template.annotations ≡ some hash)

pub RunsOn-build_deployment :
    (p : DeploymentParams) → RunsOn (build_deployment p) p.config_map_name p.config_hash
unfolding build_deployment deployment_volumes
RunsOn-build_deployment p = (
  refl,
  data_at-put "kea.openshift.io/config-hash" p.config_hash "kea.openshift.io/config-hash"
      p.pod_annotations,
)

-- So have those of a StatefulSet the hash.
pub config_hash-build_stateful_set :
    (p : StatefulSetParams)
    → data_at "kea.openshift.io/config-hash" (build_stateful_set p).spec.template.annotations
      ≡ some p.config_hash
unfolding build_stateful_set
config_hash-build_stateful_set p =
    data_at-put "kea.openshift.io/config-hash" p.config_hash "kea.openshift.io/config-hash"
      p.pod_annotations
