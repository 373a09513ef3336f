-- ===== src/Controller/Setup/Allowed.antt =====
-- The pods that the operator builds, against the constraints that it creates for them.
use kea_dhcp_operator.Resources.StatefulSet.Params.{StatefulSetParams}
use kea_dhcp_operator.Resources.StatefulSet.{build_stateful_set, init_container, main_container}
use kea_dhcp_operator.Resources.WellFormed.{is_in, are_all_in}
use kea_dhcp_operator.Resources.StatefulSet.Volumes.{
  ordinal_volumes, stateful_set_volumes, replica_count,
}
use kea_dhcp_operator.Resources.Deployment.{
  build_deployment, sidecar, deployment_volumes, kea_capabilities, DeploymentParams,
  deployment_container, has_secret_env_vars,
}
use kea_dhcp_operator.Controller.Setup.{SecurityContextConstraints, kea_scc}
use kea_dhcp_operator.Resources.Images.{tls_volume_name}
use kea_dhcp_operator.Resources.Stork.{stork_agent_container, StorkSidecarParams}
use kea_dhcp_operator.Api.Workloads.{
  config_map, secret, empty_dir, VolumeSource, Container, PodSpec, Volume,
}
use kea_dhcp_operator.Base.{
  ◌≡◌, ◌&&◌, ◌||◌, ◌∷◌, [], true, false, none, some, inl, inr, zero, suc, ◌++◌, when, List, String,
  Bool, Bool-cases, Option, ◌==◌, not, ℕ, refl,
}

abbrev volume_kind : VolumeSource → String
volume_kind (config_map name) = "configMap"
volume_kind (secret name) = "secret"
volume_kind empty_dir = "emptyDir"

allows_volumes : List String → List Volume → Bool
allows_volumes kinds [] = true
allows_volumes kinds (v ∷ vs) = is_in (volume_kind v.source) kinds && allows_volumes kinds vs

allows_containers : SecurityContextConstraints → List Container → Bool
allows_containers scc [] = true
allows_containers scc (c ∷ cs) =
    are_all_in c.capabilities.add scc.allowed_capabilities
    && (are_all_in scc.required_drop_capabilities c.capabilities.drop && allows_containers scc cs)

-- A pod is within the constraints: its capabilities, its volumes and its network.
pub allows : SecurityContextConstraints → PodSpec → Bool
unfolding allows_volumes allows_containers
allows scc pod =
    allows_containers scc (pod.init_containers ++ pod.containers)
    && (allows_volumes scc.volumes pod.volumes && (scc.allow_host_network || not pod.host_network))

caps_allowed :
    (s : String) → are_all_in (kea_capabilities s).add kea_scc.allowed_capabilities ≡ true
unfolding kea_scc kea_capabilities are_all_in is_in
caps_allowed s = elim (Bool-cases (s == "")) [
  | inl detached ↦ rw detached
  | inr attached ↦ rw attached
]

drops_all :
    (s : String) → are_all_in kea_scc.required_drop_capabilities (kea_capabilities s).drop ≡ true
unfolding kea_scc kea_capabilities are_all_in is_in
drops_all s = refl

sidecar_allowed :
    (agent : Option StorkSidecarParams) (name : String)
    → allows_containers kea_scc (sidecar agent name) ≡ true
unfolding allows_containers sidecar stork_agent_container kea_scc are_all_in is_in
sidecar_allowed none name = refl
sidecar_allowed (some sp) name = refl

deployment_volumes_allowed :
    (p : DeploymentParams) (secrets tls : Bool)
    → allows_volumes kea_scc.volumes (deployment_volumes p secrets tls) ≡ true
unfolding allows_volumes deployment_volumes kea_scc is_in
deployment_volumes_allowed p true true = refl
deployment_volumes_allowed p true false = refl
deployment_volumes_allowed p false true = refl
deployment_volumes_allowed p false false = refl

ordinal_volumes_allowed :
    (p : StatefulSetParams) (i n : ℕ) (tls : Bool)
    → allows_volumes kea_scc.volumes (
        ordinal_volumes p i n
        ++ when tls (record { name = tls_volume_name; source = secret p.tls_secret_name } ∷ []))
      ≡ true
unfolding allows_volumes ordinal_volumes kea_scc is_in
ordinal_volumes_allowed p i zero true = refl
ordinal_volumes_allowed p i zero false = refl
ordinal_volumes_allowed p i (suc n) tls = ordinal_volumes_allowed p (suc i) n tls

no_host_network : kea_scc.allow_host_network ≡ false
unfolding kea_scc
no_host_network = refl

nothing_added : are_all_in [] kea_scc.allowed_capabilities ≡ true
unfolding are_all_in
nothing_added = refl

empty_dir_allowed : is_in "emptyDir" kea_scc.volumes ≡ true
unfolding kea_scc is_in
empty_dir_allowed = refl

init_allowed : (c : List String) → are_all_in kea_scc.required_drop_capabilities ("ALL" ∷ c) ≡ true
unfolding kea_scc are_all_in is_in
init_allowed c = refl

-- The constraints allow every pod of a Deployment or a StatefulSet, with or without an attached network,
-- secrets, TLS and the Stork agent, unless it is to use the network of the host.
pub allows-build_deployment :
    (p : DeploymentParams) (q : StatefulSetParams)
    → (allows kea_scc (build_deployment p).spec.template.spec ≡ not p.host_network)
      × (allows kea_scc (build_stateful_set q).spec.template.spec ≡ not q.host_network)
unfolding allows allows_containers build_deployment build_stateful_set deployment_container
    init_container main_container allows_volumes stateful_set_volumes
allows-build_deployment p q = (
  rw (
    caps_allowed p.nad_interface,
    drops_all p.nad_interface,
    sidecar_allowed p.stork_agent "kea-config",
    deployment_volumes_allowed p (has_secret_env_vars p) (not (p.tls_secret_name == "")),
    no_host_network,
  ),
  rw (
    init_allowed [],
    nothing_added,
    empty_dir_allowed,
    caps_allowed q.nad_interface,
    drops_all q.nad_interface,
    sidecar_allowed q.stork_agent "kea-active-config",
    ordinal_volumes_allowed q 0 (replica_count q) (not (q.tls_secret_name == "")),
    no_host_network,
  ),
)
