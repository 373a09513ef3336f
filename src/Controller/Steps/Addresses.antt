-- ===== src/Controller/Steps/Addresses.antt =====
-- The Service of a component over one that the API server has already given its addresses:
-- `reconcileResource` and `buildMutateFn` of internal/controller/reconciler.go.
use kea_dhcp_operator.Resources.Labels.{common_labels}
use kea_dhcp_operator.Api.Workloads.{Service}
use kea_dhcp_operator.Resources.Services.{build_service, ServiceParams}
use kea_dhcp_operator.Api.Kube.{ObjectMeta}
use kea_dhcp_operator.Controller.Steps.Effect.{get-reconcile_resource}
use kea_dhcp_operator.Base.{
  ◌≡◌, ◌∙◌, ap, String, if◌then◌else◌, List, is_empty, ◌==◌, [], arith, eq_iff, ◌∷◌, refl, false,
}
use kea_dhcp_operator.Controller.Objects.{
  service, Client, Resource, TakesEffect, key_of, written, apply_desired, keep_cluster_ip,
  reconcile_resource,
}
use kea_dhcp_operator.Controller.Client.{done, found}

-- The text of a condition that keeps what it tests.
or_given : (s : String) → (if s == "" then "" else s) ≡ s
or_given s = ground (arith, eq_iff s "")

or_listed : (xs : List String) → (if is_empty xs then [] else xs) ≡ xs
or_listed [] = refl
or_listed (x ∷ xs) = refl

module _ {Objects : Type 0} (client : Client Objects) {admitted : Resource → Resource}
    (law : TakesEffect client admitted) (owner : ObjectMeta) where
  -- A call that reconciles the Service of a component over a live one, and that ends without an error,
  -- leaves a Service with the name, the namespace and the addresses of the live one, whatever they are,
  -- and with the labels, the selector and the ports of the component, whatever the live one has.
  pub cluster_ip-reconcile_resource :
      (q : ServiceParams) (live : Service) (s : Objects)
      → client.get (key_of (service (build_service q))) s ≡ found (service live)
      → (reconcile_resource client owner (service (build_service q)) s).0 ≡ done
      → client.get
          (key_of (service (build_service q)))
          (reconcile_resource client owner (service (build_service q)) s).1
        ≡ found (
            admitted (
              service (record {
                meta = record {
                  name = live.meta.name;
                  namespace = live.meta.namespace;
                  labels = common_labels q.cr_name q.component;
                };
                spec = record {
                  cluster_ip = live.spec.cluster_ip;
                  cluster_ips = live.spec.cluster_ips;
                  publish_not_ready_addresses = false;
                  selector = common_labels q.cr_name q.component;
                  ports = (build_service q).spec.ports;
                };
              })))
  unfolding build_service apply_desired keep_cluster_ip
  cluster_ip-reconcile_resource q live s there h =
      get-reconcile_resource client law owner (service (build_service q)) s h
      ∙ ap
          (λ x. found (
            admitted
              (written x (service (build_service q)) (apply_desired (service (build_service q))))))
          there
      ∙ rw (or_given live.spec.cluster_ip, or_listed live.spec.cluster_ips)
