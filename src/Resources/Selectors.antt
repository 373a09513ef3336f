-- ===== src/Resources/Selectors.antt =====
-- Which pods the workloads and the Services of internal/resources select, and what their annotations say.
use kea_dhcp_operator.Base.Int.{ℤ}
use kea_dhcp_operator.Resources.Names.{stateful_set_name}
use kea_dhcp_operator.Base.Decimal.{decimal, decimal-injective}
use kea_dhcp_operator.Resources.StatefulSet.{build_stateful_set}
use kea_dhcp_operator.Api.Maps.{StringMap, data_at, data_at-put}
use kea_dhcp_operator.Resources.StatefulSet.Params.{StatefulSetParams}
use kea_dhcp_operator.Resources.Deployment.{build_deployment, DeploymentParams}
use kea_dhcp_operator.Resources.Services.{
  ServiceParams, build_per_pod_service, build_headless_service, build_service, pod_name,
  build_stork_metrics_service, build_pod_monitor,
}
use kea_dhcp_operator.Base.{
  ℕ, String, true, ◌≡◌, arith, eq_iff, some, ◌<>◌, eqb, ◌==◌, ◌∷◌, if◌then◌else◌, ◌&&◌,
  append_cancel_left,
}
use kea_dhcp_operator.Resources.Labels.{selects, selects-common_labels}

module _ (q : ServiceParams) where
  -- The Service of a component, and a Deployment, select the pods of a Deployment exactly if it is of the
  -- same custom resource and the same component; so do the Service of Stork's metrics and the PodMonitor.
  pub selects-build_deployment :
      (p r : DeploymentParams)
      → let labels = (build_deployment p).spec.template.labels in
        let same = p.cr_name == q.cr_name && p.component == q.component in
        (selects (build_deployment r).spec.match_labels labels
          ≡ (p.cr_name == r.cr_name && p.component == r.component))
        × (selects (build_service q).spec.selector labels ≡ same)
        × ((agent_port prometheus_port : ℤ)
            → selects
                (build_stork_metrics_service (record {
                  namespace = q.namespace;
                  cr_name = q.cr_name;
                  component = q.component;
                  agent_port = agent_port;
                  prometheus_port = prometheus_port;
                })).spec.selector
                labels
              ≡ same)
        × (selects (build_pod_monitor q.namespace q.cr_name q.component).spec.match_labels labels
            ≡ same)
  unfolding build_deployment build_service build_stork_metrics_service build_pod_monitor
  selects-build_deployment p r = (
    selects-common_labels r.cr_name r.component p.cr_name p.component,
    selects-common_labels q.cr_name q.component p.cr_name p.component,
    λ agent_port prometheus_port. selects-common_labels q.cr_name q.component p.cr_name p.component,
    selects-common_labels q.cr_name q.component p.cr_name p.component,
  )

-- The labels of the pod of an ordinal: those of the template, and the one that the StatefulSet
-- controller adds.
abbrev pub pod_labels : StatefulSetParams → ℕ → StringMap
pod_labels p i =
    ("statefulset.kubernetes.io/pod-name", (build_stateful_set p).meta.name <> "-" <> decimal i)
    ∷ (build_stateful_set p).spec.template.labels

pod_name-injective :
    (cr_name component : String) (i j : ℕ)
    → pod_name cr_name component i ≡ pod_name cr_name component j
    → i ≡ j
unfolding pod_name
pod_name-injective cr_name component i j h =
    decimal-injective i j
      (append_cancel_left "-" _ _ (append_cancel_left (stateful_set_name cr_name component) _ _ h))

-- Of the pods of a StatefulSet, the Service of an ordinal selects the one of that ordinal and no
-- other, and the headless Service selects all.
pub selects-build_per_pod_service :
    (p : StatefulSetParams) (q : ServiceParams) (i j : ℕ)
    → q.cr_name ≡ p.cr_name
    → q.component ≡ p.component
    → (selects (build_per_pod_service q i).spec.selector (pod_labels p j) ≡ eqb i j)
      × (selects (build_headless_service q).spec.selector (pod_labels p j) ≡ true)
unfolding build_per_pod_service build_headless_service build_stateful_set pod_name selects data_at
selects-build_per_pod_service p q i j same_name same_component = (
  rw (same_name, same_component)
      (ground (
        arith,
        eq_iff (pod_name p.cr_name p.component j) (pod_name p.cr_name p.component i),
        pod_name-injective p.cr_name p.component j i,
      )),
  ground (arith, eq_iff p.cr_name q.cr_name, eq_iff p.component q.component),
)

-- The annotations of the pods say the hash of the configuration, whatever the user's annotations are,
-- and otherwise what the user's say.
pub data_at-annotations :
    (p : DeploymentParams) (q : StatefulSetParams) (key : String)
    → (data_at key (build_deployment p).spec.template.annotations ≡ (
        if "kea.openshift.io/config-hash" == key
        then some p.config_hash
        else data_at key p.pod_annotations))
      × (data_at key (build_stateful_set q).spec.template.annotations ≡ (
          if "kea.openshift.io/config-hash" == key
          then some q.config_hash
          else data_at key q.pod_annotations))
unfolding build_deployment build_stateful_set
data_at-annotations p q key = (
  data_at-put "kea.openshift.io/config-hash" p.config_hash key p.pod_annotations,
  data_at-put "kea.openshift.io/config-hash" q.config_hash key q.pod_annotations,
)
