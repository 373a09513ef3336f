-- ===== src/Controller/Dhcp4/Peers.antt =====
-- internal/controller/reconciler.go: `fillPeerURLs`.
use kea_dhcp_operator.Resources.StatefulSet.{build_stateful_set}
use kea_dhcp_operator.Resources.Services.{ServiceParams, build_headless_service}
use kea_dhcp_operator.Resources.StatefulSet.Params.{StatefulSetParams}
use kea_dhcp_operator.Api.Workloads.{StatefulSet}
use Prim.Native.Nat.{ℕ, ◌+◌, suc, zero}
use mathlib.Core.Option
use kea_dhcp_operator.Base.{
  String, false, ◌≡◌, ◌∙◌, ap, append-nonempty, refl, ◌<>◌, Option, none, some, List, [], ◌∷◌, ◌==◌,
  if◌then◌else◌, get_elem?, arith,
}
use kea_dhcp_operator.Base.Int.{ℤ}
use kea_dhcp_operator.Base.Decimal.{decimal, decimal_ℤ}
use kea_dhcp_operator.Api.Ha.{HaPeer, HaConfig}
use kea_dhcp_operator.Resources.Names.{stateful_set_name, headless_service_name}

module _ (namespace cr_name component : String) (port : ℤ) where
  -- http://<stsName>-<i>.<hlSvcName>.<namespace>.svc.cluster.local:<port>/
  unfoldable pub peer_url : ℕ → String
  peer_url i =
      "http://"
      <> (stateful_set_name cr_name component
          <> ("-"
              <> (decimal i
                  <> ("."
                      <> (headless_service_name cr_name component
                          <> ("."
                              <> (namespace
                                  <> (".svc.cluster.local:" <> (decimal_ℤ port <> "/")))))))))

  unfoldable pub fill_peer_url : ℕ → HaPeer → HaPeer
  fill_peer_url i p = record p { url = if p.url == "" then peer_url i else p.url }

  -- The loop over the peers, from an index on.
  unfoldable pub fill_peers : ℕ → List HaPeer → List HaPeer
  fill_peers i [] = []
  fill_peers i (p ∷ ps) = fill_peer_url i p ∷ fill_peers (suc i) ps

  unfoldable pub fill_peer_urls : Option HaConfig → Option HaConfig
  unfolding fill_peers
  fill_peer_urls none = none
  fill_peer_urls (some ha) = some (record ha { peers = fill_peers 0 ha.peers })

  get_elem?-fill_peers :
      (i k : ℕ) (ps : List HaPeer)
      → get_elem? (fill_peers i ps) k
        ≡ Option.map (λ (p : HaPeer). fill_peer_url (i + k) p) (get_elem? ps k)
  unfolding fill_peers
  get_elem?-fill_peers i k [] = refl
  get_elem?-fill_peers i zero (p ∷ ps) = ap (λ (n : ℕ). some (fill_peer_url n p)) (omega arith)
  get_elem?-fill_peers i (suc k) (p ∷ ps) =
      get_elem?-fill_peers (suc i) k ps
      ∙ ap (λ (n : ℕ). Option.map (λ (q : HaPeer). fill_peer_url n q) (get_elem? ps k))
          (omega arith)

  peer_url-nonempty : (i : ℕ) → (peer_url i == "") ≡ false
  unfolding peer_url
  peer_url-nonempty i = append-nonempty "http://" _ refl

  filled_url : (i : ℕ) (u : String) → String
  filled_url i u = if u == "" then peer_url i else u

  filled_url-idempotent : (i : ℕ) (u : String) → filled_url i (filled_url i u) ≡ filled_url i u
  unfolding filled_url
  filled_url-idempotent i u = ground (arith, peer_url-nonempty i)

  fill_peers-idempotent :
      (i : ℕ) (ps : List HaPeer) → fill_peers i (fill_peers i ps) ≡ fill_peers i ps
  unfolding fill_peers fill_peer_url filled_url
  fill_peers-idempotent i [] = refl
  fill_peers-idempotent i (p ∷ ps) =
      ap (λ (u : String). record p { url = u } ∷ fill_peers (suc i) (fill_peers (suc i) ps))
        (filled_url-idempotent i p.url)
      ∙ ap (λ (qs : List HaPeer). fill_peer_url i p ∷ qs) (fill_peers-idempotent (suc i) ps)

  -- Filling in twice is filling in once.
  pub fill_peer_urls-idempotent :
      (ha : Option HaConfig) → fill_peer_urls (fill_peer_urls ha) ≡ fill_peer_urls ha
  unfolding fill_peer_urls
  fill_peer_urls-idempotent none = refl
  fill_peer_urls-idempotent (some ha) =
      ap (λ (ps : List HaPeer). some (record ha { peers = ps })) (fill_peers-idempotent 0 ha.peers)

-- The address of the pod of an ordinal: its name, and the headless Service that its StatefulSet names.
abbrev pub pod_url : StatefulSet → ℕ → ℤ → String
pod_url sts k port =
    "http://"
    <> sts.meta.name
    <> "-"
    <> decimal k
    <> "."
    <> sts.spec.service_name
    <> "."
    <> sts.meta.namespace
    <> ".svc.cluster.local:"
    <> decimal_ℤ port
    <> "/"

module _ (port : ℤ) (p : StatefulSetParams) (q : ServiceParams) where
  peer_url_lem :
      (k : ℕ)
      → peer_url p.namespace p.cr_name p.component port k ≡ pod_url (build_stateful_set p) k port
  unfolding peer_url build_stateful_set
  peer_url_lem k = refl

  -- Filling in fills every peer, at its own index, and changes nothing else: a URL that the user gave
  -- stays, an empty one becomes the address of the pod of that ordinal in the StatefulSet of the custom
  -- resource and the component, under the headless Service of the two.
  pub peers-fill_peer_urls :
      (ha : HaConfig) (k : ℕ)
      → q.cr_name ≡ p.cr_name
      → q.component ≡ p.component
      → (Option.map
            (λ (h : HaConfig). get_elem? h.peers k)
            (fill_peer_urls p.namespace p.cr_name p.component port (some ha))
          ≡ some (
              Option.map
                (λ (r : HaPeer). record r {
                  url = if r.url == "" then pod_url (build_stateful_set p) k port else r.url;
                })
                (get_elem? ha.peers k)))
        × ((build_stateful_set p).spec.service_name ≡ (build_headless_service q).meta.name)
  unfolding fill_peer_urls fill_peer_url build_headless_service build_stateful_set
  peers-fill_peer_urls ha k same_name same_component = (
    ap (λ (x : Option HaPeer). some x)
        (get_elem?-fill_peers p.namespace p.cr_name p.component port 0 k ha.peers
          ∙ ap
              (λ (n : ℕ).
                Option.map
                  (λ (r : HaPeer). fill_peer_url p.namespace p.cr_name p.component port n r)
                  (get_elem? ha.peers k))
              (omega arith)
          ∙ ap
              (λ (u : String).
                Option.map (λ (r : HaPeer). record r { url = if r.url == "" then u else r.url })
                  (get_elem? ha.peers k))
              (peer_url_lem k)),
    rw (same_name, same_component),
  )
