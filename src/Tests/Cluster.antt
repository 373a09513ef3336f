-- ===== src/Tests/Cluster.antt =====
-- A client over the objects of a cluster in memory, which keeps the laws of the interface, and the
-- resources that a reconciler is for.
use kea_dhcp_operator.Controller.Steps.Success.{NeverFails}
use kea_dhcp_operator.Controller.Environment.{Environment}
use kea_dhcp_operator.Controller.Client.{not_found, OwnerApi, found, Fetched, done}
use kea_dhcp_operator.Base.{
  ℕ, Bool, ◌≢◌, true, ◌≡◌, if◌then◌else◌, sym, refl, none, eqb, false, arith, eq_iff, ◌∙◌, ok, ◌&&◌,
  ◌==◌, ap,
}
use kea_dhcp_operator.Controller.Objects.{
  config_maps, secrets, deployments, stateful_sets, services, service_accounts, pod_monitors,
  role_bindings, routes, Kind, TakesEffect, Resource, Key, Client, created, key_of, written,
}

-- The number of a kind, and the kind of a number.
abbrev pub place : Kind → ℕ
place config_maps = 0
place secrets = 1
place deployments = 2
place stateful_sets = 3
place services = 4
place service_accounts = 5
place pod_monitors = 6
place role_bindings = 7
place routes = 8

abbrev kind_at : ℕ → Kind
kind_at n =
    if eqb n 0
    then config_maps
    else if eqb n 1
    then secrets
    else if eqb n 2
    then deployments
    else if eqb n 3
    then stateful_sets
    else if eqb n 4
    then services
    else if eqb n 5
    then service_accounts
    else if eqb n 6
    then pod_monitors
    else if eqb n 7
    then role_bindings
    else routes

kind_at-place : (k : Kind) → kind_at (place k) ≡ k
kind_at-place config_maps = refl
kind_at-place secrets = refl
kind_at-place deployments = refl
kind_at-place stateful_sets = refl
kind_at-place services = refl
kind_at-place service_accounts = refl
kind_at-place pod_monitors = refl
kind_at-place role_bindings = refl
kind_at-place routes = refl

abbrev pub is_key : Key → Key → Bool
is_key j k = eqb (place j.kind) (place k.kind) && j.namespace == k.namespace && j.name == k.name

place-injective : (j k : Kind) → place j ≡ place k → j ≡ k
place-injective j k h = sym (kind_at-place j) ∙ ap kind_at h ∙ kind_at-place k

is_key_refl : (k : Key) → is_key k k ≡ true
is_key_refl k = ground (arith, eq_iff k.namespace k.namespace, eq_iff k.name k.name)

is_key-≢ : (j k : Key) → j ≢ k → is_key j k ≡ false
is_key-≢ j k apart = ground (
  arith,
  eq_iff j.namespace k.namespace,
  eq_iff j.name k.name,
  place-injective j.kind k.kind,
  apart,
)

abbrev pub Objects : Type 0
Objects = Key → Fetched Resource

abbrev pub no_objects : Objects
no_objects k = not_found

abbrev stored : Key → Resource → Objects → Objects
stored j obj s k = if is_key j k then found obj else s k

abbrev pub cluster : Client Objects
cluster = record {
  get = λ k s. s k;
  create = λ obj s. (created, stored (key_of obj) obj s);
  create_or_update = λ obj f s. (done, stored (key_of obj) (written (s (key_of obj)) obj f) s);
  ready_replicas = λ k s. found 1;
  set_controller_reference = λ owner obj. done;
}

abbrev pub as_is : Resource → Resource
as_is obj = obj

pub cluster-TakesEffect : TakesEffect cluster as_is
cluster-TakesEffect = record {
  get-create_or_update = λ obj f s h. rw (is_key_refl (key_of obj));
  get-create_or_update_other = λ obj f k s apart. rw (is_key-≢ (key_of obj) k apart);
  get-create_other = λ obj k s apart. rw (is_key-≢ (key_of obj) k apart);
}

-- One resource, which every name is the name of.
abbrev pub only : {Owner Status : Type 0} → (Owner → Status → Owner) → OwnerApi Owner Owner Status
only with_status = record {
  get = λ ns name s. found s;
  update_status = λ server status s. (done, with_status s status);
}

abbrev pub environment : Environment Objects
environment = record {
  client = cluster;
  is_open_shift = true;
  unmarshal = λ s. none;
  print = λ j. ok "{}";
  compute_hash = λ s. s;
  get_stork = λ ns name. not_found;
  list_storks = λ ns. none;
}

pub cluster-NeverFails : NeverFails cluster
cluster-NeverFails = record {
  create_or_update-done = λ obj f s. refl;
  set_controller_reference-done = λ owner obj. refl;
}
