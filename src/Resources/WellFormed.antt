-- ===== src/Resources/WellFormed.antt =====
-- What Kubernetes asks of a pod's volumes: each has a name of its own, a container mounts only volumes
-- of the pod, and no two of them at the same path.
use kea_dhcp_operator.Base.{
  String, Bool, true, false, ◌≡◌, List, [], ◌∷◌, ◌==◌, ◌&&◌, ◌||◌, not, All, refl, ◌++◌, arith,
}
use kea_dhcp_operator.Api.Workloads.{Container, PodSpec, Volume, VolumeMount}

unfoldable pub is_in : String → List String → Bool
is_in x [] = false
is_in x (y ∷ ys) = x == y || is_in x ys

unfoldable pub are_distinct : List String → Bool
unfolding is_in
are_distinct [] = true
are_distinct (x ∷ xs) = not (is_in x xs) && are_distinct xs

unfoldable pub are_all_in : List String → List String → Bool
unfolding is_in
are_all_in [] ys = true
are_all_in (x ∷ xs) ys = is_in x ys && are_all_in xs ys

abbrev pub volume_names : List Volume → List String
volume_names [] = []
volume_names (v ∷ vs) = v.name ∷ volume_names vs

abbrev pub mounted_names : List VolumeMount → List String
mounted_names [] = []
mounted_names (m ∷ ms) = m.name ∷ mounted_names ms

abbrev pub mount_paths : List VolumeMount → List String
mount_paths [] = []
mount_paths (m ∷ ms) = m.mount_path ∷ mount_paths ms

-- One container in a pod with these volumes.
abbrev pub IsMounted : List Volume → Container → Type 0
IsMounted volumes c =
    (are_all_in (mounted_names c.volume_mounts) (volume_names volumes) ≡ true)
    × (are_distinct (mount_paths c.volume_mounts) ≡ true)

pub record IsWellFormed (pod : PodSpec) : Type 0 where
  pub distinct_volumes : are_distinct (volume_names pod.volumes) ≡ true
  pub init_mounted : All (IsMounted pod.volumes) pod.init_containers
  pub mounted : All (IsMounted pod.volumes) pod.containers

pub is_in-append :
    (x : String) (ys zs : List String) → is_in x (ys ++ zs) ≡ is_in x ys || is_in x zs
unfolding is_in
is_in-append x [] zs = refl
is_in-append x (y ∷ ys) zs = ground (arith, is_in-append x ys zs)
