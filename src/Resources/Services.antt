-- ===== src/Resources/Services.antt =====
-- internal/resources/service.go, serviceaccount.go, configmap.go, podmonitor.go and route.go: the objects
-- beside the workloads.
use kea_dhcp_operator.Base.{ℕ, String, true, false, ◌<>◌, [], ◌∷◌, ◌==◌, if◌then◌else◌}
use kea_dhcp_operator.Base.Int.{ℤ}
use kea_dhcp_operator.Base.Decimal.{decimal}
use kea_dhcp_operator.Api.Maps.{StringMap}
use kea_dhcp_operator.Api.Workloads.{
  DataObject, Meta, PodMonitor, Route, Service, ServiceAccount, ServicePort, by_name, by_number,
}
use kea_dhcp_operator.Resources.Labels.{common_labels}
use kea_dhcp_operator.Resources.Names.{
  config_file_name, config_map_name, headless_service_name, per_pod_service_name, pod_monitor_name,
  service_account_name, service_name, stateful_set_name, stork_metrics_service_name,
  stork_route_name,
}

pub record ServiceParams : Type 0 where
  pub namespace : String
  pub cr_name : String
  pub component : String
  pub port : ℤ
  pub protocol : String

-- The one port of a component's Service.
unfoldable pub component_port : ServiceParams → ServicePort
component_port p = record {
  name = p.component;
  port = p.port;
  target_port = by_number p.port;
  protocol = if p.protocol == "" then "TCP" else p.protocol;
}

unfoldable pub build_headless_service : ServiceParams → Service
unfolding component_port common_labels
build_headless_service p = record {
  meta = record {
    name = headless_service_name p.cr_name p.component;
    namespace = p.namespace;
    labels = common_labels p.cr_name p.component;
  };
  spec = record {
    cluster_ip = "None";
    cluster_ips = [];
    publish_not_ready_addresses = true;
    selector = common_labels p.cr_name p.component;
    ports = component_port p ∷ [];
  };
}

unfoldable pub build_service : ServiceParams → Service
unfolding component_port common_labels
build_service p = record {
  meta = record {
    name = service_name p.cr_name p.component;
    namespace = p.namespace;
    labels = common_labels p.cr_name p.component;
  };
  spec = record {
    cluster_ip = "";
    cluster_ips = [];
    publish_not_ready_addresses = false;
    selector = common_labels p.cr_name p.component;
    ports = component_port p ∷ [];
  };
}

-- The name that the StatefulSet controller gives to the pod of an ordinal, and the label with it.
unfoldable pub pod_name : String → String → ℕ → String
pod_name cr_name component ordinal = stateful_set_name cr_name component <> ("-" <> decimal ordinal)

unfoldable pub build_per_pod_service : ServiceParams → ℕ → Service
unfolding component_port common_labels pod_name
build_per_pod_service p ordinal = record {
  meta = record {
    name = per_pod_service_name p.cr_name p.component ordinal;
    namespace = p.namespace;
    labels = common_labels p.cr_name p.component;
  };
  spec = record {
    cluster_ip = "";
    cluster_ips = [];
    publish_not_ready_addresses = false;
    selector = ("statefulset.kubernetes.io/pod-name", pod_name p.cr_name p.component ordinal) ∷ [];
    ports = component_port p ∷ [];
  };
}

pub record StorkMetricsServiceParams : Type 0 where
  pub namespace : String
  pub cr_name : String
  pub component : String
  pub agent_port : ℤ
  pub prometheus_port : ℤ

unfoldable pub build_stork_metrics_service : StorkMetricsServiceParams → Service
unfolding common_labels
build_stork_metrics_service p = record {
  meta = record {
    name = stork_metrics_service_name p.cr_name p.component;
    namespace = p.namespace;
    labels = common_labels p.cr_name p.component;
  };
  spec = record {
    cluster_ip = "";
    cluster_ips = [];
    publish_not_ready_addresses = false;
    selector = common_labels p.cr_name p.component;
    ports =
        record {
          name = "stork-prom";
          port = p.prometheus_port;
          target_port = by_name "stork-prom";
          protocol = "TCP";
        }
        ∷ record {
          name = "stork-agent";
          port = p.agent_port;
          target_port = by_name "stork-agent";
          protocol = "TCP";
        }
        ∷ [];
  };
}

unfoldable pub build_service_account : String → String → StringMap → ServiceAccount
build_service_account namespace cr_name labels = record {
  meta = record { name = service_account_name cr_name; namespace = namespace; labels = labels };
}

unfoldable pub config_map_meta : String → String → StringMap → Meta
config_map_meta name namespace labels = record {
  name = name;
  namespace = namespace;
  labels = labels;
}

unfoldable pub build_config_map : String → String → String → String → StringMap → DataObject
build_config_map namespace cr_name component config_json labels = record {
  meta = record {
    name = config_map_name cr_name component;
    namespace = namespace;
    labels = labels;
  };
  entries = (config_file_name component, config_json) ∷ [];
}

unfoldable pub build_pod_monitor : String → String → String → PodMonitor
unfolding common_labels
build_pod_monitor namespace cr_name component = record {
  meta = record {
    name = pod_monitor_name cr_name component;
    namespace = namespace;
    labels = common_labels cr_name component;
  };
  spec = record {
    match_labels = common_labels cr_name component;
    port = "stork-prom";
    path = "/metrics";
    interval = "30s";
  };
}

-- `PrometheusPort` of the parameters is not read.
unfoldable pub build_stork_metrics_route : String → String → String → Route
unfolding common_labels
build_stork_metrics_route namespace cr_name component = record {
  meta = record {
    name = stork_route_name cr_name component;
    namespace = namespace;
    labels = common_labels cr_name component;
  };
  spec = record {
    service = stork_metrics_service_name cr_name component;
    target_port = "stork-prom";
    termination = "edge";
  };
}
