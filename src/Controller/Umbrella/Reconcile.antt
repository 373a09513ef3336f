-- ===== src/Controller/Umbrella/Reconcile.antt =====
-- internal/controller/keaserver_controller.go: `Reconcile`, over the client's parts for the umbrella
-- resource and for the five kinds of children. Events and logs are left out.
use kea_dhcp_operator.Base.{String, Bool, false, ◌≡◌, ◌∙◌, sym, ap, ◌<>◌}
use kea_dhcp_operator.Api.Common.{ComponentStatus}
use kea_dhcp_operator.Api.ControlAgent.{KeaControlAgent}
use kea_dhcp_operator.Api.Ddns.{KeaDhcpDdns}
use kea_dhcp_operator.Api.Dhcp4.{KeaDhcp4Server}
use kea_dhcp_operator.Api.Dhcp6.{KeaDhcp6Server}
use kea_dhcp_operator.Api.Server.{KeaServer}
use kea_dhcp_operator.Api.Stork.{KeaStorkServer}
use kea_dhcp_operator.Controller.Client.{
  Outcome, done, failed, Fetched, found, not_found, get_failed, wrap->>-done, wrap-done, Run, ◌>>◌,
  wrap,
}
use kea_dhcp_operator.Controller.Status.{is_ready_status}
use kea_dhcp_operator.Controller.Umbrella.Children.{
  Matches, reconcile_child, Matches-reconcile_child,
}
use kea_dhcp_operator.Controller.Umbrella.Phase.{ChildrenReady, umbrella_status}
use kea_dhcp_operator.Controller.Umbrella.Cluster.{Cluster, Apis, AreFaithful}

-- `isChildReady`: a child that is not there is not ready.
abbrev pub is_child_ready : {Child : Type 0} → (Child → ComponentStatus) → Fetched Child → Bool
is_child_ready status_of (found c) = is_ready_status (status_of c)
is_child_ready status_of not_found = false
is_child_ready status_of (get_failed e) = false

module _ {Dhcp4s Dhcp6s Agents Ddnss Storks Servers : Type 0}
    (apis : Apis Dhcp4s Dhcp6s Agents Ddnss Storks Servers) where
  abbrev World : Type 0
  World = Cluster Dhcp4s Dhcp6s Agents Ddnss Storks Servers

  abbrev in_dhcp4s : Outcome × Dhcp4s → World → Outcome × World
  in_dhcp4s (o, s) w = (o, record w { dhcp4s = s })

  abbrev in_dhcp6s : Outcome × Dhcp6s → World → Outcome × World
  in_dhcp6s (o, s) w = (o, record w { dhcp6s = s })

  abbrev in_agents : Outcome × Agents → World → Outcome × World
  in_agents (o, s) w = (o, record w { agents = s })

  abbrev in_ddnss : Outcome × Ddnss → World → Outcome × World
  in_ddnss (o, s) w = (o, record w { ddnss = s })

  abbrev in_storks : Outcome × Storks → World → Outcome × World
  in_storks (o, s) w = (o, record w { storks = s })

  abbrev in_servers : Outcome × Servers → World → Outcome × World
  in_servers (o, s) w = (o, record w { servers = s })

  module _ (server : KeaServer) where
    abbrev ns : String
    ns = server.meta.namespace

    abbrev child : String → String
    child suffix = server.meta.name <> suffix

    unfoldable pub reconcile_dhcp4 : Run World
    reconcile_dhcp4 w =
        in_dhcp4s (reconcile_child apis.dhcp4 server.spec.dhcp4 ns (child "-dhcp4") w.dhcp4s) w

    unfoldable pub reconcile_dhcp6 : Run World
    reconcile_dhcp6 w =
        in_dhcp6s (reconcile_child apis.dhcp6 server.spec.dhcp6 ns (child "-dhcp6") w.dhcp6s) w

    unfoldable pub reconcile_control_agent : Run World
    reconcile_control_agent w =
        in_agents
          (reconcile_child apis.agent server.spec.control_agent ns (child "-ctrl-agent") w.agents) w

    unfoldable pub reconcile_dhcp_ddns : Run World
    reconcile_dhcp_ddns w =
        in_ddnss (reconcile_child apis.ddns server.spec.dhcp_ddns ns (child "-ddns") w.ddnss) w

    unfoldable pub reconcile_stork_server : Run World
    reconcile_stork_server w =
        in_storks
          (reconcile_child apis.stork server.spec.stork_server ns (child "-stork-server") w.storks)
          w

    -- Step 3: what the children report.
    unfoldable pub children_ready : World → ChildrenReady
    children_ready w = record {
      dhcp4 =
          is_child_ready (λ (c : KeaDhcp4Server). c.status.component)
            (apis.dhcp4.get ns (child "-dhcp4") w.dhcp4s);
      dhcp6 =
          is_child_ready (λ (c : KeaDhcp6Server). c.status.component)
            (apis.dhcp6.get ns (child "-dhcp6") w.dhcp6s);
      control_agent =
          is_child_ready (λ (c : KeaControlAgent). c.status.component)
            (apis.agent.get ns (child "-ctrl-agent") w.agents);
      dhcp_ddns =
          is_child_ready (λ (c : KeaDhcpDdns). c.status.component)
            (apis.ddns.get ns (child "-ddns") w.ddnss);
      stork_server =
          is_child_ready (λ (c : KeaStorkServer). c.status.component)
            (apis.stork.get ns (child "-stork-server") w.storks);
    }

    unfoldable pub write_status : String → Run World
    unfolding children_ready
    write_status now w =
        in_servers
          (apis.server.update_status server
            (umbrella_status now server.meta.generation server.spec (children_ready w)
              server.status)
            w.servers)
          w

    -- Steps 2 and 3.
    unfoldable pub reconcile_server : String → Run World
    unfolding reconcile_dhcp4 reconcile_dhcp6 reconcile_control_agent reconcile_dhcp_ddns
        reconcile_stork_server write_status
    reconcile_server now =
        wrap "reconciling DHCPv4 child" reconcile_dhcp4
        >> wrap "reconciling DHCPv6 child" reconcile_dhcp6
        >> wrap "reconciling ControlAgent child" reconcile_control_agent
        >> wrap "reconciling DHCP-DDNS child" reconcile_dhcp_ddns
        >> wrap "reconciling StorkServer child" reconcile_stork_server
        >> wrap "updating status" (write_status now)

    -- The children as the spec asks, each by its own name.
    abbrev pub InSync : World → Type 0
    InSync w =
        Matches (λ (c : KeaDhcp4Server). c.spec) server.spec.dhcp4
          (apis.dhcp4.get ns (child "-dhcp4") w.dhcp4s)
        × Matches (λ (c : KeaDhcp6Server). c.spec) server.spec.dhcp6
            (apis.dhcp6.get ns (child "-dhcp6") w.dhcp6s)
        × Matches (λ (c : KeaControlAgent). c.spec) server.spec.control_agent
            (apis.agent.get ns (child "-ctrl-agent") w.agents)
        × Matches (λ (c : KeaDhcpDdns). c.spec) server.spec.dhcp_ddns
            (apis.ddns.get ns (child "-ddns") w.ddnss)
        × Matches (λ (c : KeaStorkServer). c.spec) server.spec.stork_server
            (apis.stork.get ns (child "-stork-server") w.storks)

  -- Step 1.
  abbrev fetched : String → Fetched KeaServer → Run World
  fetched now (found server) w = reconcile_server server now w
  fetched now not_found w = (done, w)
  fetched now (get_failed e) w = (failed e, w)

  unfoldable pub reconcile : String → String → String → Run World
  reconcile now ns name w = fetched now (apis.server.get ns name w.servers) w

module _ {Dhcp4s Dhcp6s Agents Ddnss Storks Servers : Type 0}
    (apis : Apis Dhcp4s Dhcp6s Agents Ddnss Storks Servers)
    (laws : AreFaithful Dhcp4s Dhcp6s Agents Ddnss Storks Servers apis) where
  -- Steps 2 and 3 without an error.
  InSync-reconcile_server :
      (server : KeaServer) (now : String) (w : Cluster Dhcp4s Dhcp6s Agents Ddnss Storks Servers)
      → (reconcile_server apis server now w).0 ≡ done
      → let w' = (reconcile_server apis server now w).1 in
        InSync apis server w'
        × (apis.server.update_status server
              (umbrella_status now server.meta.generation server.spec
                (children_ready apis server w')
                server.status)
              w.servers
            ≡ (done, w'.servers))
  unfolding reconcile_server reconcile_dhcp4 reconcile_dhcp6 reconcile_control_agent
      reconcile_dhcp_ddns reconcile_stork_server write_status children_ready
  InSync-reconcile_server server now w h =
      let s4 = wrap->>-done "reconciling DHCPv4 child" (reconcile_dhcp4 apis server) _ w h in
      let w4 = (reconcile_dhcp4 apis server w).1 in
      let s6 = wrap->>-done "reconciling DHCPv6 child" (reconcile_dhcp6 apis server) _ w4 s4.1 in
      let w6 = (reconcile_dhcp6 apis server w4).1 in
      let sc =
        wrap->>-done "reconciling ControlAgent child" (reconcile_control_agent apis server) _ w6
          s6.1 in
      let wc = (reconcile_control_agent apis server w6).1 in
      let sd =
        wrap->>-done "reconciling DHCP-DDNS child" (reconcile_dhcp_ddns apis server) _ wc sc.1 in
      let wd = (reconcile_dhcp_ddns apis server wc).1 in
      let ss =
        wrap->>-done "reconciling StorkServer child" (reconcile_stork_server apis server) _ wd
          sd.1 in
      let ws = (reconcile_stork_server apis server wd).1 in
      let written = wrap-done "updating status" (write_status apis server now) ws ss.1 in
      let whole = s4.2 ∙ s6.2 ∙ sc.2 ∙ sd.2 ∙ ss.2 ∙ written in
      rw whole (
        (
          Matches-reconcile_child apis.dhcp4 (λ c. c.spec) laws.dhcp4 server.spec.dhcp4 _ _ _ s4.0,
          Matches-reconcile_child apis.dhcp6 (λ c. c.spec) laws.dhcp6 server.spec.dhcp6 _ _ _ s6.0,
          Matches-reconcile_child apis.agent (λ c. c.spec) laws.agent server.spec.control_agent _ _
              _ sc.0,
          Matches-reconcile_child apis.ddns (λ c. c.spec) laws.ddns server.spec.dhcp_ddns _ _ _
              sd.0,
          Matches-reconcile_child apis.stork (λ c. c.spec) laws.stork server.spec.stork_server _ _ _
              ss.0,
        ),
        ap (λ o. (o, (write_status apis server now ws).1.servers))
            (sym (ap (λ r. r.0) written) ∙ ss.1),
      )

  -- A reconciliation of a server that is there, and that ends without an error, leaves every child as
  -- the spec asks, there with its spec or gone, and has stored the status computed from the children
  -- as they are at the end.
  pub InSync-reconcile :
      (now namespace name : String) (server : KeaServer)
      (w : Cluster Dhcp4s Dhcp6s Agents Ddnss Storks Servers)
      → apis.server.get namespace name w.servers ≡ found server
      → (reconcile apis now namespace name w).0 ≡ done
      → let w' = (reconcile apis now namespace name w).1 in
        InSync apis server w'
        × (apis.server.update_status server
              (umbrella_status now server.meta.generation server.spec
                (children_ready apis server w')
                server.status)
              w.servers
            ≡ (done, w'.servers))
  unfolding reconcile
  InSync-reconcile now namespace name server w there h =
      let same = ap (λ f. fetched apis now f w) there in
      rw same (InSync-reconcile_server server now w (sym (ap (λ r. r.0) same) ∙ h))
