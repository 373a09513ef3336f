-- ===== src/Resources/Deployment/Pods.antt =====
-- The pods of `BuildDeployment`: their volumes, their labels and annotations, and their capabilities.
use kea_dhcp_operator.Base.{true, ◌≡◌, Option, none, some, All, Bool, false, refl}
use kea_dhcp_operator.Resources.Deployment.{
  DeploymentParams, build_deployment, deployment_container, deployment_volumes,
  deployment_volume_mounts, sidecar, stork_agent_container,
}
use kea_dhcp_operator.Resources.WellFormed.{
  IsWellFormed, IsMounted, volume_names, are_distinct, are_all_in, mounted_names, mount_paths,
}
use kea_dhcp_operator.Resources.Stork.{StorkSidecarParams, stork_agent_container}
use kea_dhcp_operator.Resources.Images.{config_volume_name}

module _ (p : DeploymentParams) where
  volumes-distinct :
      (secrets tls : Bool) → are_distinct (volume_names (deployment_volumes p secrets tls)) ≡ true
  unfolding deployment_volumes are_distinct
  volumes-distinct true true = refl
  volumes-distinct true false = refl
  volumes-distinct false true = refl
  volumes-distinct false false = refl

  mounts-IsMounted :
      (secrets tls : Bool)
      → (are_all_in
            (mounted_names (deployment_volume_mounts secrets tls))
            (volume_names (deployment_volumes p secrets tls))
          ≡ true)
        × (are_distinct (mount_paths (deployment_volume_mounts secrets tls)) ≡ true)
  unfolding deployment_volumes deployment_volume_mounts are_distinct are_all_in
  mounts-IsMounted true true = (refl, refl)
  mounts-IsMounted true false = (refl, refl)
  mounts-IsMounted false true = (refl, refl)
  mounts-IsMounted false false = (refl, refl)

  sidecar-IsMounted :
      (secrets tls : Bool) (agent : Option StorkSidecarParams)
      → All (IsMounted (deployment_volumes p secrets tls)) (sidecar agent config_volume_name)
  unfolding deployment_volumes sidecar stork_agent_container are_distinct are_all_in
  sidecar-IsMounted secrets tls none = tt
  sidecar-IsMounted secrets tls (some sp) = ((refl, refl), tt)

  -- In every Deployment that is built, whatever the parameters, the volumes of the pod have different
  -- names, and each container mounts only volumes of the pod, no two at the same path.
  pub build_deployment-IsWellFormed : IsWellFormed (build_deployment p).spec.template.spec
  unfolding build_deployment deployment_container
  build_deployment-IsWellFormed = record {
    distinct_volumes = volumes-distinct _ _;
    init_mounted = tt;
    mounted = (mounts-IsMounted _ _, sidecar-IsMounted _ _ p.stork_agent);
  }
