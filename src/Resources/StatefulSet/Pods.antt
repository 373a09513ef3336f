-- ===== src/Resources/StatefulSet/Pods.antt =====
-- The pods of `BuildStatefulSet`: a volume for each ordinal, beside the fixed ones.
use kea_dhcp_operator.Resources.StatefulSet.OrdinalNames.{
  names_from, are_distinct-names_from, is_in-names_from_other, are_all_in-names_from,
}
use kea_dhcp_operator.Resources.StatefulSet.{
  build_stateful_set, StorkSidecarParams, main_container, init_container, active_config_volume_name,
}
use kea_dhcp_operator.Resources.Deployment.{sidecar}
use kea_dhcp_operator.Resources.Stork.{stork_agent_container}
use kea_dhcp_operator.Base.Decimal.{decimal-injective, decimal}
use kea_dhcp_operator.Resources.StatefulSet.Volumes.{
  ordinal_mount_path, ordinal_mounts, ordinal_volume_name, ordinal_volumes, stateful_set_volumes,
  init_volume_mounts, main_volume_mounts, replica_count,
}
use kea_dhcp_operator.Resources.StatefulSet.Params.{StatefulSetParams}
use kea_dhcp_operator.Api.Workloads.{Volume, secret}
use kea_dhcp_operator.Resources.Images.{tls_volume_name}
use kea_dhcp_operator.Resources.WellFormed.{
  is_in, are_distinct, are_all_in, mounted_names, volume_names, mount_paths, IsMounted,
  IsWellFormed,
}
use text.Mathlib.Text.{starts_with}
use kea_dhcp_operator.Base.{
  zero, suc, [], refl, ℕ, String, arith, false, true, List, Bool, ◌≡◌, ◌==◌, ◌++◌, ◌∷◌, ◌<>◌, when,
  append_cancel_left, ap, none, some, Option, eq-append_other, All, eq_comm,
}

ordinal_volume_name-injective : (i j : ℕ) → ordinal_volume_name i ≡ ordinal_volume_name j → i ≡ j
unfolding ordinal_volume_name
ordinal_volume_name-injective i j h = decimal-injective i j (append_cancel_left "kea-config-" _ _ h)

ordinal_mount_path-injective : (i j : ℕ) → ordinal_mount_path i ≡ ordinal_mount_path j → i ≡ j
unfolding ordinal_mount_path
ordinal_mount_path-injective i j h =
    decimal-injective i j (append_cancel_left "/" _ _ (append_cancel_left "/etc/kea/configs" _ _ h))

abbrev ordinal_names : ℕ → ℕ → List String
ordinal_names = names_from ordinal_volume_name ordinal_volume_name-injective

abbrev ordinal_paths : ℕ → ℕ → List String
ordinal_paths = names_from ordinal_mount_path ordinal_mount_path-injective

name-other :
    (s : String) (k : ℕ)
    → starts_with s "kea-config-" ≡ false
    → (s == ordinal_volume_name k) ≡ false
unfolding ordinal_volume_name
name-other s k h = eq-append_other s "kea-config-" (decimal k) h

path-other :
    (s : String) (k : ℕ)
    → starts_with s "/etc/kea/configs" ≡ false
    → (s == ordinal_mount_path k) ≡ false
unfolding ordinal_mount_path
path-other s k h = eq-append_other s "/etc/kea/configs" ("/" <> decimal k) h

mounted_names-ordinal_mounts : (i n : ℕ) → mounted_names (ordinal_mounts i n) ≡ ordinal_names i n
unfolding ordinal_mounts names_from
mounted_names-ordinal_mounts i zero = refl
mounted_names-ordinal_mounts i (suc n) =
    ap (λ names. ordinal_volume_name i ∷ names) (mounted_names-ordinal_mounts (suc i) n)

mount_paths-ordinal_mounts : (i n : ℕ) → mount_paths (ordinal_mounts i n) ≡ ordinal_paths i n ++ []
unfolding ordinal_mounts names_from
mount_paths-ordinal_mounts i zero = refl
mount_paths-ordinal_mounts i (suc n) =
    ap (λ paths. ordinal_mount_path i ∷ paths) (mount_paths-ordinal_mounts (suc i) n)

abbrev tls_volumes : StatefulSetParams → Bool → List Volume
tls_volumes p tls =
    when tls (record { name = tls_volume_name; source = secret p.tls_secret_name } ∷ [])

module _ (p : StatefulSetParams) where
  volume_names-ordinal_volumes :
      (i n : ℕ) (rest : List Volume)
      → volume_names (ordinal_volumes p i n ++ rest) ≡ ordinal_names i n ++ volume_names rest
  unfolding ordinal_volumes names_from
  volume_names-ordinal_volumes i zero rest = refl
  volume_names-ordinal_volumes i (suc n) rest =
      ap (λ names. ordinal_volume_name i ∷ names) (volume_names-ordinal_volumes (suc i) n rest)

  is_in-volumes :
      (x : String) (tls : Bool)
      → ((k : ℕ) → (x == ordinal_volume_name k) ≡ false)
      → is_in x (volume_names (ordinal_volumes p 0 (replica_count p) ++ tls_volumes p tls))
        ≡ is_in x (volume_names (tls_volumes p tls))
  is_in-volumes x tls other =
      rw (volume_names-ordinal_volumes 0 (replica_count p) (tls_volumes p tls)) (
        is_in-names_from_other ordinal_volume_name ordinal_volume_name-injective x 0
          (replica_count p) (volume_names (tls_volumes p tls)) other)

  tls-other :
      (k : ℕ) (tls : Bool)
      → is_in (ordinal_volume_name k) (volume_names (tls_volumes p tls)) ≡ false
  unfolding is_in
  tls-other k true = rw (eq_comm "kea-tls" (ordinal_volume_name k) (name-other "kea-tls" k refl))
  tls-other k false = refl

  fixed-other :
      (x : String) (tls : Bool)
      → starts_with x "kea-config-" ≡ false
      → (x == "kea-tls") ≡ false
      → is_in x (volume_names (ordinal_volumes p 0 (replica_count p) ++ tls_volumes p tls)) ≡ false
  unfolding is_in
  fixed-other x true h t = rw (is_in-volumes x true (λ k. name-other x k h)) (rw t)
  fixed-other x false h t = is_in-volumes x false (λ k. name-other x k h)

  ordinal_volumes-distinct :
      (tls : Bool)
      → are_distinct (volume_names (ordinal_volumes p 0 (replica_count p) ++ tls_volumes p tls))
        ≡ true
  unfolding are_distinct
  ordinal_volumes-distinct tls =
      rw (volume_names-ordinal_volumes 0 (replica_count p) (tls_volumes p tls)) (
        are_distinct-names_from ordinal_volume_name ordinal_volume_name-injective 0
          (replica_count p) (volume_names (tls_volumes p tls)) (λ k. tls-other k tls)
          (tls_volumes-distinct tls))
    where
      tls_volumes-distinct : (b : Bool) → are_distinct (volume_names (tls_volumes p b)) ≡ true
      tls_volumes-distinct true = refl
      tls_volumes-distinct false = refl

  volumes-distinct : (tls : Bool) → are_distinct (volume_names (stateful_set_volumes p tls)) ≡ true
  unfolding stateful_set_volumes are_distinct is_in
  volumes-distinct tls =
      rw
        (
          fixed-other "kea-active-config" tls refl refl,
          fixed-other "kea-run" tls refl refl,
          fixed-other "kea-leases" tls refl refl,
        )
        (ordinal_volumes-distinct tls)

  main-IsMounted :
      (tls : Bool)
      → (are_all_in
            (mounted_names (main_volume_mounts tls))
            (volume_names (stateful_set_volumes p tls))
          ≡ true)
        × (are_distinct (mount_paths (main_volume_mounts tls)) ≡ true)
  unfolding stateful_set_volumes main_volume_mounts are_distinct are_all_in is_in
  main-IsMounted true = (rw (is_in-volumes "kea-tls" true (λ k. name-other "kea-tls" k refl)), refl)
  main-IsMounted false = (refl, refl)

  ordinal_path-other :
      (x : String)
      → starts_with x "/etc/kea/configs" ≡ false
      → is_in x (mount_paths (ordinal_mounts 0 (replica_count p))) ≡ false
  unfolding is_in
  ordinal_path-other x h = rw (mount_paths-ordinal_mounts 0 (replica_count p)) (
      is_in-names_from_other ordinal_mount_path ordinal_mount_path-injective x 0 (replica_count p)
        [] (λ k. path-other x k h))

  init-IsMounted :
      (tls : Bool)
      → (are_all_in
            (mounted_names (init_volume_mounts p))
            (volume_names (stateful_set_volumes p tls))
          ≡ true)
        × (are_distinct (mount_paths (init_volume_mounts p)) ≡ true)
  unfolding init_volume_mounts stateful_set_volumes are_distinct are_all_in is_in
  init-IsMounted tls = (
    rw
        (
          mounted_names-ordinal_mounts 0 (replica_count p),
          volume_names-ordinal_volumes 0 (replica_count p) (tls_volumes p tls),
        )
        (are_all_in-names_from ordinal_volume_name ordinal_volume_name-injective 0 (replica_count p)
          0 (replica_count p) ("kea-active-config" ∷ "kea-run" ∷ "kea-leases" ∷ [])
          (volume_names (tls_volumes p tls)) (omega arith) (omega arith)),
    rw
        (
          ordinal_path-other "/etc/kea/active" refl,
          ordinal_path-other "/var/run/kea" refl,
          mount_paths-ordinal_mounts 0 (replica_count p),
        )
        (are_distinct-names_from ordinal_mount_path ordinal_mount_path-injective 0 (replica_count p)
          [] (λ k. refl) refl),
  )

  sidecar-IsMounted :
      (tls : Bool) (agent : Option StorkSidecarParams)
      → All (IsMounted (stateful_set_volumes p tls)) (sidecar agent active_config_volume_name)
  unfolding stateful_set_volumes sidecar stork_agent_container are_distinct are_all_in is_in
  sidecar-IsMounted tls none = tt
  sidecar-IsMounted tls (some sp) = ((refl, refl), tt)

  -- In every StatefulSet that is built, whatever the parameters and for any number of replicas, the
  -- volumes of the pod have different names, and each container, the init container too, mounts only
  -- volumes of the pod, no two at the same path.
  pub build_stateful_set-IsWellFormed : IsWellFormed (build_stateful_set p).spec.template.spec
  unfolding build_stateful_set main_container init_container
  build_stateful_set-IsWellFormed = record {
    distinct_volumes = volumes-distinct _;
    init_mounted = (init-IsMounted _, tt);
    mounted = (main-IsMounted _, sidecar-IsMounted _ p.stork_agent);
  }
