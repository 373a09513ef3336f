-- ===== src/Resources/StatefulSet/Volumes.antt =====
-- The volumes of `BuildStatefulSet` in internal/resources/statefulset.go, and where they are mounted.
use kea_dhcp_operator.Base.{
  ℕ, zero, suc, String, true, false, Option, none, some, List, [], ◌∷◌, ◌++◌, ◌<>◌, eqb, get_or,
  if◌then◌else◌, when, Bool,
}
use kea_dhcp_operator.Base.Decimal.{decimal}
use kea_dhcp_operator.Api.Workloads.{Volume, VolumeMount, config_map, empty_dir, secret}
use kea_dhcp_operator.Resources.Deployment.{volume_mount}
use kea_dhcp_operator.Resources.Images.{
  lease_volume_name, lease_mount_path, tls_volume_name, tls_mount_path,
}
use kea_dhcp_operator.Resources.Names.{ha_config_map_name}
use kea_dhcp_operator.Resources.Stork.{config_mount_path, run_mount_path, run_volume_name}
use kea_dhcp_operator.Resources.StatefulSet.Params.{
  active_config_volume_name, active_config_mount_path, configs_base_mount_path, StatefulSetParams,
}

-- m[i]
unfoldable pub name_at : ℕ → List (ℕ × String) → Option String
name_at i [] = none
name_at i ((j, name) ∷ names) = if eqb j i then some name else name_at i names

unfoldable pub ordinal_volume_name : ℕ → String
ordinal_volume_name i = "kea-config-" <> decimal i

unfoldable pub ordinal_mount_path : ℕ → String
ordinal_mount_path i = configs_base_mount_path <> "/" <> decimal i

unfoldable pub ordinal_mounts : ℕ → ℕ → List VolumeMount
unfolding ordinal_volume_name ordinal_mount_path
ordinal_mounts i zero = []
ordinal_mounts i (suc n) =
    volume_mount (ordinal_volume_name i) (ordinal_mount_path i) true ∷ ordinal_mounts (suc i) n

-- The mounts of Kea's container, with TLS or not.
unfoldable pub main_volume_mounts : Bool → List VolumeMount
main_volume_mounts tls =
    volume_mount active_config_volume_name config_mount_path true
    ∷ volume_mount run_volume_name run_mount_path false
    ∷ volume_mount lease_volume_name lease_mount_path false
    ∷ when tls (volume_mount tls_volume_name tls_mount_path true ∷ [])

module _ (p : StatefulSetParams) where
  unfoldable pub replica_count : ℕ
  replica_count = get_or p.replicas 2

  -- `cmName`
  unfoldable pub ordinal_config_map : ℕ → String
  unfolding name_at
  ordinal_config_map i =
      get_or (name_at i p.config_map_names) (ha_config_map_name p.cr_name p.component i)

  -- The loop over the ordinals, from one on: a volume for each.
  unfoldable pub ordinal_volumes : ℕ → ℕ → List Volume
  unfolding ordinal_volume_name ordinal_config_map
  ordinal_volumes i zero = []
  ordinal_volumes i (suc n) =
      record { name = ordinal_volume_name i; source = config_map (ordinal_config_map i) }
      ∷ ordinal_volumes (suc i) n

  unfoldable pub stateful_set_volumes : Bool → List Volume
  unfolding ordinal_volumes
  stateful_set_volumes tls =
      (record { name = active_config_volume_name; source = empty_dir }
        ∷ record { name = run_volume_name; source = empty_dir }
        ∷ record { name = lease_volume_name; source = empty_dir }
        ∷ [])
      ++ (ordinal_volumes 0 replica_count
          ++ when tls (record { name = tls_volume_name; source = secret p.tls_secret_name } ∷ []))

  unfoldable pub init_volume_mounts : List VolumeMount
  unfolding ordinal_mounts
  init_volume_mounts =
      volume_mount active_config_volume_name active_config_mount_path false
      ∷ volume_mount run_volume_name run_mount_path false
      ∷ ordinal_mounts 0 replica_count
