-- ===== src/Console/Handler.antt =====
-- console-plugin/pkg/handler/handler.go: the leases of all agents, and discovery.go: the endpoints of
-- the agents. What the agents answer is a parameter, as is the list of resources.
use mathlib.Core.Bool.{true, false}
use Prim.Native.Nat.{ℕ}
use mathlib.Core.List.{append-nil, append_assoc}
use kea_dhcp_operator.Base.{
  Result, ok, error, String, Bool, not, ◌<>◌, ◌≡◌, ◌∙◌, ap, refl, Option, List, [], ◌∷◌, ◌++◌, ◌==◌,
  ◌&&◌, if◌then◌else◌, length, get_or, inl, inr, Bool-cases, ◌||◌,
}
use kea_dhcp_operator.Base.Int.{ℤ, pos}
use kea_dhcp_operator.Base.Decimal.{decimal_ℤ}

pub record AgentEndpoint : Type 0 where
  pub name : String
  pub namespace : String
  pub url : String
  pub port : ℤ

-- What discovery reads of a KeaControlAgent: its "http-port", if it is a number.
pub record AgentItem : Type 0 where
  pub name : String
  pub namespace : String
  pub http_port : Option ℤ

-- One pass of the loop of `DiscoverAgents`.
unfoldable pub endpoint_of : AgentItem → AgentEndpoint
endpoint_of item = record {
  name = item.name;
  namespace = item.namespace;
  url =
      "http://"
      <> (item.name
          <> ("-ctrl-agent"
              <> ("."
                  <> (item.namespace
                      <> (".svc.cluster.local:"
                          <> (decimal_ℤ (get_or item.http_port (pos 8000)) <> "/"))))));
  port = get_or item.http_port (pos 8000);
}

pub record LeaseResponse (Lease : Type 0) : Type 0 where
  pub leases : List Lease
  pub count : ℕ
  pub agents : List String

not_or : (a b : Bool) → (not a && not b) ≡ not (a || b)
not_or true b = refl
not_or false b = refl

module _ {Lease : Type 0} (get_leases : String → Result (List Lease))
    (namespace_filter : String) where
  abbrev is_filtered : AgentEndpoint → Bool
  is_filtered agent = not (namespace_filter == "") && not (agent.namespace == namespace_filter)

  -- The leases and the agents so far.
  pub record Collected : Type 0 where
    pub all_leases : List Lease
    pub queried_agents : List String

  abbrev add_answer : String → Result (List Lease) → Collected → Collected
  add_answer url (ok leases) c = record {
    all_leases = c.all_leases ++ leases;
    queried_agents = c.queried_agents ++ (url ∷ []);
  }
  add_answer url (error e) c = c

  -- The loop over the agents: one that does not answer is passed over.
  unfoldable pub collect : List AgentEndpoint → Collected → Collected
  collect [] c = c
  collect (agent ∷ agents) c =
      collect agents
        (if is_filtered agent then c else add_answer agent.url (get_leases agent.url) c)

  abbrev respond : Collected → LeaseResponse Lease
  respond c = record {
    leases = c.all_leases;
    count = length c.all_leases;
    agents = c.queried_agents;
  }

  -- The answer of `GetLeases4` and `GetLeases6` once the agents are discovered.
  unfoldable pub lease_response : List AgentEndpoint → LeaseResponse Lease
  unfolding collect
  lease_response agents = respond (collect agents (record { all_leases = []; queried_agents = [] }))

  -- The same, agent by agent: what each of them contributes.
  abbrev contributed : Result (List Lease) → List Lease
  contributed (ok leases) = leases
  contributed (error e) = []

  abbrev answered : String → Result (List Lease) → List String
  answered url (ok leases) = url ∷ []
  answered url (error e) = []

  abbrev is_asked_for : AgentEndpoint → Bool
  is_asked_for agent = namespace_filter == "" || agent.namespace == namespace_filter

  is_filtered_lem : (agent : AgentEndpoint) → is_filtered agent ≡ not (is_asked_for agent)
  is_filtered_lem agent = not_or (namespace_filter == "") (agent.namespace == namespace_filter)

  abbrev pub leases_from : AgentEndpoint → List Lease
  leases_from agent = if is_asked_for agent then contributed (get_leases agent.url) else []

  abbrev pub url_from : AgentEndpoint → List String
  url_from agent = if is_asked_for agent then answered agent.url (get_leases agent.url) else []

  abbrev pub concat_map : {A : Type 0} → (AgentEndpoint → List A) → List AgentEndpoint → List A
  concat_map f [] = []
  concat_map f (agent ∷ agents) = f agent ++ concat_map f agents

  add_lem :
      (agent : AgentEndpoint) (answer : Result (List Lease)) (c : Collected)
      → get_leases agent.url ≡ answer
      → (if is_filtered agent then c else add_answer agent.url answer c) ≡ record {
        all_leases = c.all_leases ++ leases_from agent;
        queried_agents = c.queried_agents ++ url_from agent;
      }
  add_lem agent answer c e = rw (is_filtered_lem agent) (elim (Bool-cases (is_asked_for agent)) [
    | inl within ↦ rw (within, e) (added answer)
    | inr out ↦ rw (out, append-nil c.all_leases, append-nil c.queried_agents)
  ])
    where
      added :
          (r : Result (List Lease))
          → add_answer agent.url r c ≡ record {
            all_leases = c.all_leases ++ contributed r;
            queried_agents = c.queried_agents ++ answered agent.url r;
          }
      added (ok leases) = refl
      added (error x) = rw (append-nil c.all_leases, append-nil c.queried_agents)

  collect_lem :
      (agents : List AgentEndpoint) (c : Collected)
      → collect agents c ≡ record {
        all_leases = c.all_leases ++ concat_map leases_from agents;
        queried_agents = c.queried_agents ++ concat_map url_from agents;
      }
  unfolding collect
  collect_lem [] c = rw (append-nil c.all_leases, append-nil c.queried_agents)
  collect_lem (agent ∷ agents) c =
      ap (collect agents) (add_lem agent (get_leases agent.url) c refl)
      ∙ collect_lem agents _
      ∙ rw (append_assoc c.all_leases, append_assoc c.queried_agents)

  -- The answer has, in the order of discovery, the leases of every agent of the namespace asked for (of
  -- all of them if none is) that answers, and no other; it lists those agents and counts the leases.
  pub lease_response_lem :
      (agents : List AgentEndpoint)
      → lease_response agents ≡ record {
        leases = concat_map leases_from agents;
        count = length (concat_map leases_from agents);
        agents = concat_map url_from agents;
      }
  unfolding lease_response
  lease_response_lem agents =
      rw (collect_lem agents (record { all_leases = []; queried_agents = [] }))
