-- ===== src/Controller/Apply.antt =====
-- What the functions given to `CreateOrUpdate` in internal/controller make of an object: of a fresh
-- one everything is set, of one that exists only what Kubernetes lets a client change. `fresh` is
-- `existing.CreationTimestamp.IsZero()`; the owner reference is left out.
pub mod Stable
pub mod Upgrade
use kubernetes_redis_operato.Prelude.{Bool, true, List, if◌then◌else◌}
use kubernetes_redis_operato.Prelude.Int.{ℤ}
use kubernetes_redis_operato.Go.Text.{Str}
use kubernetes_redis_operato.Go.Map.{Map}
use kubernetes_redis_operato.Resources.Object.{
  Service, ServiceSpec, ConfigMap, Budget, ServiceMonitor, PodSpec, ClaimTemplate, Workload,
}

-- `reconcileHeadlessService`, `reconcileSentinelService` and `reconcileClusterService`
unfoldable pub mutate_service : Bool → Service → Service → Service
mutate_service fresh desired existing = record existing {
  labels = desired.labels;
  annotations = desired.annotations;
  spec = if fresh then desired.spec else record existing.spec {
    selector = desired.spec.selector;
    ports = desired.spec.ports;
    publish_not_ready_addresses = desired.spec.publish_not_ready_addresses;
  };
}

-- `reconcileService` of the controller of Redis
unfoldable pub mutate_client_service : Bool → Service → Service → Service
mutate_client_service fresh desired existing = record existing {
  labels = desired.labels;
  spec =
      if fresh
      then desired.spec
      else record existing.spec { selector = desired.spec.selector; ports = desired.spec.ports };
}

-- The functions that write a configuration.
unfoldable pub mutate_config_map : ConfigMap → ConfigMap → ConfigMap
mutate_config_map desired existing = record existing {
  labels = desired.labels;
  contents = desired.contents;
}

-- `reconcilePDB` and `reconcileClusterPDB`
unfoldable pub mutate_budget : Budget → Budget → Budget
mutate_budget desired existing = record existing {
  labels = desired.labels;
  match_labels = desired.match_labels;
}

unfoldable pub mutate_service_monitor : ServiceMonitor → ServiceMonitor → ServiceMonitor
mutate_service_monitor desired existing = record existing {
  labels = desired.labels;
  match_labels = desired.match_labels;
  port = desired.port;
  path = desired.path;
  interval = desired.interval;
}

-- `Spec.Template`: the labels of the pods, the annotation with the hash of the configuration (no text
-- stands for none), and the pods.
pub record Template : Type 0 where
  pub labels : Map Str
  pub config_hash : Str
  pub pod : PodSpec

-- `Spec` of a stateful set, or of a deployment, which has neither a service nor claims.
pub record StoredSpec : Type 0 where
  pub replicas : ℤ
  pub service_name : Str
  pub selector : Map Str
  pub template : Template
  pub claims : List ClaimTemplate

-- A stateful set or a deployment as the API server keeps it.
pub record Stored : Type 0 where
  pub name : Str
  pub namespace : Str
  pub labels : Map Str
  pub spec : StoredSpec

-- The specification that a builder gives, with the hash that the controller adds to it.
unfoldable pub desired_spec : Workload → Str → StoredSpec
desired_spec w hash = record {
  replicas = w.replicas;
  service_name = w.service_name;
  selector = w.match_labels;
  template = record { labels = w.match_labels; config_hash = hash; pod = w.pod };
  claims = w.claims;
}

-- The functions that write a stateful set or a deployment.
unfoldable pub mutate_workload : Bool → Workload → Str → Stored → Stored
unfolding desired_spec
mutate_workload fresh desired hash existing = record existing {
  labels = desired.labels;
  spec = if fresh then desired_spec desired hash else record existing.spec {
    template = (desired_spec desired hash).template;
    replicas = desired.replicas;
  };
}

-- What `CreateOrUpdate` hands over if there is no such object.
unfoldable pub created : Workload → Str → Stored → Stored
unfolding mutate_workload
created desired hash blank =
    mutate_workload true desired hash
      (record blank { name = desired.name; namespace = desired.namespace })
