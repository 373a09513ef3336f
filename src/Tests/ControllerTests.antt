-- ===== src/Tests/ControllerTests.antt =====
-- Witnesses of the reconcilers' properties.
use kea_dhcp_operator.Base.{String, ◌≡◌, refl, some, [], ◌∷◌, true, false}
use kea_dhcp_operator.Base.Int.{pos}
use kea_dhcp_operator.Api.Common.{ConditionStatus}
use kea_dhcp_operator.Api.ControlAgent.{KeaControlAgent}
use kea_dhcp_operator.Api.Ddns.{KeaDhcpDdns}
use kea_dhcp_operator.Api.Dhcp4.{KeaDhcp4Server, KeaDhcp4ServerSpec}
use kea_dhcp_operator.Api.Dhcp6.{KeaDhcp6Server}
use kea_dhcp_operator.Api.Server.{KeaServer}
use kea_dhcp_operator.Api.Stork.{KeaStorkServer}
use kea_dhcp_operator.Controller.Client.{◌>>◌, wrap, done, found, not_found, ChildApi}
use kea_dhcp_operator.Controller.Conditions.{
  set_condition, find_condition, merged, find_condition-set_condition,
}
use kea_dhcp_operator.Controller.Status.{
  all_ready, component_status, is_ready_status, is_ready_status-component_status,
}
use kea_dhcp_operator.Controller.Umbrella.Children.{reconcile_child}
use kea_dhcp_operator.Controller.Umbrella.Cluster.{Cluster, Apis, AreFaithful}
use kea_dhcp_operator.Controller.Umbrella.Phase.{
  umbrella_status, phase-umbrella_status, status_in, ChildrenReady,
}
use kea_dhcp_operator.Controller.Umbrella.Reconcile.{
  reconcile, reconcile_server, reconcile_dhcp4, reconcile_dhcp6, reconcile_control_agent,
  reconcile_dhcp_ddns, reconcile_stork_server, write_status, children_ready, InSync,
  InSync-reconcile,
}
use kea_dhcp_operator.Tests.Memory.{Memory, in_memory, in_memory-IsFaithful, put}
use kea_dhcp_operator.Tests.Specs.{component, server}

abbrev ready : ConditionStatus
ready = record {
  kind = "Ready";
  status = "False";
  last_transition_time = "10:00";
  reason = "DeploymentProgressing";
  message = "0/1 replicas ready";
}

condition_example :
    find_condition "Ready"
      (set_condition "11:00" "Ready" "True" "DeploymentReady" "All replicas are ready" (ready ∷ []))
    ≡ some (merged "11:00" "Ready" "True" "DeploymentReady" "All replicas are ready" (some ready))
unfolding find_condition
condition_example =
    find_condition-set_condition "11:00" "Ready" "True" "DeploymentReady" "All replicas are ready"
      "Ready" (ready ∷ [])

ready_example :
    is_ready_status (component_status "11:00" "ab" "kea-dhcp4" (pos 3) (pos 2) (pos 2) component)
    ≡ true
unfolding all_ready
ready_example =
    is_ready_status-component_status "11:00" "ab" "kea-dhcp4" (pos 3) (pos 2) (pos 2) component

abbrev all_up : ChildrenReady
all_up = record {
  dhcp4 = true;
  dhcp6 = false;
  control_agent = false;
  dhcp_ddns = false;
  stork_server = false;
}

phase_example :
    let st = umbrella_status "11:00" (pos 3) server.spec all_up server.status in
    (st.phase ≡ "Running") × (status_in "Ready" st.conditions ≡ some "True")
phase_example = phase-umbrella_status "11:00" (pos 3) server.spec all_up server.status

abbrev make_dhcp4 : String → String → KeaDhcp4ServerSpec → KeaDhcp4Server
make_dhcp4 ns name spec = record {
  meta = record { name = name; namespace = ns; generation = pos 1 };
  spec = spec;
  status = record { component = component; nad_addresses = [] };
}

abbrev dhcp4s : ChildApi (Memory KeaDhcp4Server) KeaDhcp4Server KeaDhcp4ServerSpec
dhcp4s = in_memory make_dhcp4

abbrev apis :
    Apis
      (Memory KeaDhcp4Server)
      (Memory KeaDhcp6Server)
      (Memory KeaControlAgent)
      (Memory KeaDhcpDdns)
      (Memory KeaStorkServer)
      (Memory KeaServer)
apis = record {
  dhcp4 = dhcp4s;
  dhcp6 = in_memory (λ ns name spec. record {
    meta = record { name = name; namespace = ns; generation = pos 1 };
    spec = spec;
    status = record { component = component };
  });
  agent = in_memory (λ ns name spec. record {
    meta = record { name = name; namespace = ns; generation = pos 1 };
    spec = spec;
    status = record { component = component };
  });
  ddns = in_memory (λ ns name spec. record {
    meta = record { name = name; namespace = ns; generation = pos 1 };
    spec = spec;
    status = record { component = component };
  });
  stork = in_memory (λ ns name spec. record {
    meta = record { name = name; namespace = ns; generation = pos 1 };
    spec = spec;
    status = record {
      component = component;
      url = "";
      admin_secret_name = "";
      server_token_secret_name = "";
    };
  });
  server = record {
    get = λ ns name s. s ns name;
    update_status =
        λ o st s. (done, put o.meta.namespace o.meta.name (found (record o { status = st })) s);
  };
}

faithful :
    AreFaithful
      (Memory KeaDhcp4Server)
      (Memory KeaDhcp6Server)
      (Memory KeaControlAgent)
      (Memory KeaDhcpDdns)
      (Memory KeaStorkServer)
      (Memory KeaServer)
      apis
faithful = record {
  dhcp4 = in_memory-IsFaithful _ _ (λ ns name spec. refl);
  dhcp6 = in_memory-IsFaithful _ _ (λ ns name spec. refl);
  agent = in_memory-IsFaithful _ _ (λ ns name spec. refl);
  ddns = in_memory-IsFaithful _ _ (λ ns name spec. refl);
  stork = in_memory-IsFaithful _ _ (λ ns name spec. refl);
}

abbrev world :
    Cluster
      (Memory KeaDhcp4Server)
      (Memory KeaDhcp6Server)
      (Memory KeaControlAgent)
      (Memory KeaDhcpDdns)
      (Memory KeaStorkServer)
      (Memory KeaServer)
world = record {
  dhcp4s = λ ns name. not_found;
  dhcp6s = λ ns name. not_found;
  agents = λ ns name. not_found;
  ddnss = λ ns name. not_found;
  storks = λ ns name. not_found;
  servers = λ ns name. found server;
}

ran : (reconcile apis "11:00" "net" "site" world).0 ≡ done
unfolding reconcile reconcile_server reconcile_child reconcile_dhcp4 reconcile_dhcp6
    reconcile_control_agent reconcile_dhcp_ddns reconcile_stork_server write_status ◌>>◌ wrap
ran = refl

reconcile_example :
    let w = (reconcile apis "11:00" "net" "site" world).1 in
    InSync apis server w
    × (apis.server.update_status server
          (umbrella_status "11:00" (pos 3) server.spec (children_ready apis server w) server.status)
          world.servers
        ≡ (done, w.servers))
reconcile_example = InSync-reconcile apis faithful "11:00" "net" "site" server world refl ran
