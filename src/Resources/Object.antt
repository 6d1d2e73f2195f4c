-- ===== src/Resources/Object.antt =====
-- The Kubernetes objects that the builders of internal/resources describe, with the fields that they
-- set.
use kubernetes_redis_operato.Prelude.{ℕ, Bool, List, Option}
use kubernetes_redis_operato.Prelude.Int.{ℤ}
use kubernetes_redis_operato.Go.Text.{Str}
use kubernetes_redis_operato.Go.Map.{Map}

-- A port by its name and number; the target is the same port, the protocol TCP.
pub record ServicePort : Type 0 where
  pub name : Str
  pub port : ℕ

-- A service of the type ClusterIP.
pub record ServiceSpec : Type 0 where
  pub cluster_ip : Str
  pub selector : Map Str
  pub ports : List ServicePort
  pub publish_not_ready_addresses : Bool

pub record Service : Type 0 where
  pub name : Str
  pub namespace : Str
  pub labels : Map Str
  pub annotations : Map Str
  pub spec : ServiceSpec

-- A budget that allows for one pod to be unavailable.
pub record Budget : Type 0 where
  pub name : Str
  pub namespace : Str
  pub labels : Map Str
  pub match_labels : Map Str

pub record ServiceMonitor : Type 0 where
  pub name : Str
  pub namespace : Str
  pub labels : Map Str
  pub match_labels : Map Str
  pub port : Str
  pub path : Str
  pub interval : Str

pub record ConfigMap : Type 0 where
  pub name : Str
  pub namespace : Str
  pub labels : Map Str
  pub contents : Map Str

-- A value, the password in a secret, or a field of the pod.
pub data EnvSource : Type 0 where
  literal secret_password field : Str → EnvSource

pub record EnvVar : Type 0 where
  pub name : Str
  pub source : EnvSource

pub record VolumeMount : Type 0 where
  pub name : Str
  pub path : Str
  pub read_only : Bool

pub data VolumeSource : Type 0 where
  from_config_map from_secret : Str → VolumeSource
  empty_dir : VolumeSource

pub record Volume : Type 0 where
  pub name : Str
  pub source : VolumeSource

-- A command that is run every so many seconds; no threshold stands for the default.
pub record Probe : Type 0 where
  pub command : List Str
  pub initial_delay : ℕ
  pub period : ℕ
  pub timeout : ℕ
  pub failure_threshold : Option ℕ

-- `ports` as in a service. The resources that a container requests are left out.
pub record Container : Type 0 where
  pub name : Str
  pub image : Str
  pub command : List Str
  pub env : List EnvVar
  pub mounts : List VolumeMount
  pub ports : List ServicePort
  pub liveness : Option Probe
  pub readiness : Option Probe
  pub pre_stop : List Str

-- Affinity, tolerations and node selectors are left out.
pub record PodSpec : Type 0 where
  pub init_containers : List Container
  pub containers : List Container
  pub volumes : List Volume

-- A claim template, for access by one node.
pub record ClaimTemplate : Type 0 where
  pub name : Str
  pub size : Str
  pub class_name : Option Str

-- A stateful set, or a deployment, which has neither a service nor claims. `match_labels` are also
-- the labels of the pods.
pub record Workload : Type 0 where
  pub name : Str
  pub namespace : Str
  pub labels : Map Str
  pub replicas : ℤ
  pub service_name : Str
  pub match_labels : Map Str
  pub pod : PodSpec
  pub claims : List ClaimTemplate

-- The second part of a workload is the annotation for the hash of the configuration, which the
-- controllers add to its pods; no text stands for no annotation.
pub data Resource : Type 0 where
  config_map : ConfigMap → Resource
  stateful_set deployment : Workload → Str → Resource
  service : Service → Resource
  budget : Budget → Resource
  service_monitor : ServiceMonitor → Resource
