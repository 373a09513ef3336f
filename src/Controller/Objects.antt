-- ===== src/Controller/Objects.antt =====
-- The objects that the reconcilers own, and the calls of the client on them: `reconcileResource`,
-- `buildMutateFn` and `reconcileRoute` of internal/controller/reconciler.go. Owner references are left
-- out of the objects; whether setting one fails is a parameter. Logs are left out.
use kea_dhcp_operator.Base.{ℕ, String, ◌<>◌, ◌==◌, is_empty, if◌then◌else◌, ◌≡◌, ◌≢◌}
use kea_dhcp_operator.Api.Kube.{ObjectMeta}
use kea_dhcp_operator.Api.Workloads.{
  DataObject, Deployment, Meta, PodMonitor, RoleBinding, Route, Service, ServiceAccount,
  ServiceSpec, StatefulSet,
}
use kea_dhcp_operator.Controller.Client.{
  Outcome, done, Fetched, found, not_found, get_failed, Run, wrap, ◌>>◌,
}

pub data Resource : Type 0 where
  config_map : DataObject → Resource
  secret : DataObject → Resource
  deployment : Deployment → Resource
  stateful_set : StatefulSet → Resource
  service : Service → Resource
  service_account : ServiceAccount → Resource
  pod_monitor : PodMonitor → Resource
  role_binding : RoleBinding → Resource
  route : Route → Resource

pub data Kind : Type 0 where
  config_maps secrets deployments stateful_sets services service_accounts pod_monitors role_bindings
        routes :
      Kind

-- client.ObjectKey, with the kind.
pub record Key : Type 0 where
  pub kind : Kind
  pub namespace : String
  pub name : String

abbrev pub key_at : Kind → Meta → Key
key_at kind m = record { kind = kind; namespace = m.namespace; name = m.name }

-- client.ObjectKeyFromObject
abbrev pub key_of : Resource → Key
key_of (config_map x) = key_at config_maps x.meta
key_of (secret x) = key_at secrets x.meta
key_of (deployment x) = key_at deployments x.meta
key_of (stateful_set x) = key_at stateful_sets x.meta
key_of (service x) = key_at services x.meta
key_of (service_account x) = key_at service_accounts x.meta
key_of (pod_monitor x) = key_at pod_monitors x.meta
key_of (role_binding x) = key_at role_bindings x.meta
key_of (route x) = key_at routes x.meta

abbrev relabel : Meta → Meta → Meta
relabel desired live = record live { labels = desired.labels }

-- The desired spec, with the addresses that the API server has given.
unfoldable pub keep_cluster_ip : ServiceSpec → ServiceSpec → ServiceSpec
keep_cluster_ip desired live = record desired {
  cluster_ip = if live.cluster_ip == "" then desired.cluster_ip else live.cluster_ip;
  cluster_ips = if is_empty live.cluster_ips then desired.cluster_ips else live.cluster_ips;
}

-- `buildMutateFn`, and the function in `reconcileRoute`: the live object with the desired state put
-- back. The live object is of the same kind, or the desired one itself where there was none.
unfoldable pub apply_desired : Resource → Resource → Resource
unfolding keep_cluster_ip
apply_desired (config_map d) (config_map l) =
    config_map (record l { meta = relabel d.meta l.meta; entries = d.entries })
apply_desired (secret d) (secret l) =
    secret (record l { meta = relabel d.meta l.meta; entries = d.entries })
apply_desired (deployment d) (deployment l) =
    deployment (record l { meta = relabel d.meta l.meta; spec = d.spec })
apply_desired (stateful_set d) (stateful_set l) =
    stateful_set (record l { meta = relabel d.meta l.meta; spec = d.spec })
apply_desired (service d) (service l) =
    service (record l { meta = relabel d.meta l.meta; spec = keep_cluster_ip d.spec l.spec })
apply_desired (service_account d) (service_account l) =
    service_account (record l { meta = relabel d.meta l.meta })
apply_desired (pod_monitor d) (pod_monitor l) =
    pod_monitor (record l { meta = relabel d.meta l.meta; spec = d.spec })
apply_desired (role_binding d) (role_binding l) =
    role_binding
      (record l { meta = relabel d.meta l.meta; subjects = d.subjects; role_ref = d.role_ref })
apply_desired (route d) (route l) = route (record l { meta = relabel d.meta l.meta; spec = d.spec })
apply_desired d l = l

-- client.Create
pub data Created : Type 0 where
  created : Created
  already_exists : String → Created
  create_failed : String → Created

-- The client and the API server behind it. `create_or_update` is controllerutil.CreateOrUpdate with the
-- function that it calls on the object; `ready_replicas` reads the status of a workload.
pub record Client (Objects : Type 0) : Type 0 where
  pub get : Key → Objects → Fetched Resource
  pub create : Resource → Objects → Created × Objects
  pub create_or_update : Resource → (Resource → Resource) → Objects → Outcome × Objects
  pub ready_replicas : Key → Objects → Fetched ℕ
  pub set_controller_reference : ObjectMeta → Resource → Outcome

abbrev pub key_string : Key → String
key_string k = k.namespace <> "/" <> k.name

module _ {Objects : Type 0} (client : Client Objects) (owner : ObjectMeta) where
  abbrev pub set_reference : Resource → Run Objects
  set_reference obj s = (client.set_controller_reference owner obj, s)

  -- The kind in the message is empty, since the builders set none.
  unfoldable pub reconcile_resource : Resource → Run Objects
  unfolding apply_desired
  reconcile_resource obj =
      wrap "setting controller reference" (set_reference obj)
      >> wrap ("reconciling  " <> key_string (key_of obj))
          (client.create_or_update obj (apply_desired obj))

  unfoldable pub reconcile_route : Route → Run Objects
  unfolding apply_desired
  reconcile_route r =
      wrap "setting controller reference on Route" (set_reference (route r))
      >> wrap ("reconciling Route " <> key_string (key_of (route r)))
          (client.create_or_update (route r) (apply_desired (route r)))

-- The object that CreateOrUpdate writes: the live one after the function, or else the new one.
abbrev pub written : Fetched Resource → Resource → (Resource → Resource) → Resource
written (found live) obj f = f live
written not_found obj f = f obj
written (get_failed e) obj f = f obj

-- What the API server promises: a call without an error has taken effect, with the defaults that the
-- server fills in, and no call changes an object of another key. A ConfigMap has no defaults.
pub record TakesEffect {Objects : Type 0} (client : Client Objects) (admitted : Resource → Resource)
    : Type 0 where
  pub get-create_or_update :
      (obj : Resource) (f : Resource → Resource) (s : Objects)
      → (client.create_or_update obj f s).0 ≡ done
      → client.get (key_of obj) (client.create_or_update obj f s).1
        ≡ found (admitted (written (client.get (key_of obj) s) obj f))
  pub get-create_or_update_other :
      (obj : Resource) (f : Resource → Resource) (k : Key) (s : Objects)
      → key_of obj ≢ k
      → client.get k (client.create_or_update obj f s).1 ≡ client.get k s
  pub get-create_other :
      (obj : Resource) (k : Key) (s : Objects)
      → key_of obj ≢ k
      → client.get k (client.create obj s).1 ≡ client.get k s
