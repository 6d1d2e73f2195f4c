-- ===== src/Tests/Objects.antt =====
-- The reconciliation of small custom resources, and the theorems at them.
use mathlib.Core.List.{reverse, reverse_perm}
use mathlib.Core.List.Perm
use kubernetes_redis_operato.Resources.Workload.{
  build_redis_stateful_set, build_redis_deployment, build_sentinel_redis_stateful_set,
  build_sentinel_deployment, build_cluster_master_stateful_set, build_cluster_replica_stateful_set,
}
use kubernetes_redis_operato.Resources.Workload.Mounts.{mounts_defined, workloads-mounts_defined}
use kubernetes_redis_operato.Prelude.{
  List, ◌↔◌, ◌≡◌, refl, true, false, Option, none, some, [], ◌∷◌, ◌⊎◌, inl,
}
use kubernetes_redis_operato.Prelude.Int.{pos}
use kubernetes_redis_operato.Go.Text.{Str, codes}
use kubernetes_redis_operato.Go.Map.{Map}
use kubernetes_redis_operato.Api.Types.{
  StorageSpec, Phase, default_redis_image, default_exporter_image,
}
use kubernetes_redis_operato.Api.Objects.{Meta, RedisInstance, RedisSentinel, RedisCluster}
use kubernetes_redis_operato.Redis.Effect.{emit, Result, Error, Command, Log}
use kubernetes_redis_operato.Redis.Loops.{IssuesAt}
use kubernetes_redis_operato.Resources.Labels.{label_cluster, component_redis, role_label_key}
use kubernetes_redis_operato.Resources.Object.{Resource, Service}
use kubernetes_redis_operato.Resources.Service.{
  build_headless_service, build_sentinel_master_service,
}
use kubernetes_redis_operato.Resources.Config.{
  value_of, keys, Visit, config_data_hash, build_redis_config_map, build_sentinel_redis_config_map,
  build_sentinel_config_map, build_cluster_config_map,
}
use kubernetes_redis_operato.Resources.Config.Determined.{IsVisit, build_config_maps-determined}
use kubernetes_redis_operato.Controller.Kube.{Kube, Pod}
use kubernetes_redis_operato.Controller.Reload.{try_cluster_hot_reload}
use kubernetes_redis_operato.Controller.Reload.Safe.{
  IsPush, IsMasterAddr, try_cluster_hot_reload-IsReload,
}
use kubernetes_redis_operato.Controller.Failover.OnePerMaster.{FailsOverOnce, fail_over_all-once}
use kubernetes_redis_operato.Controller.Sentinel.{
  reconcile_role_labels, reconcile_sentinel, reconcile_live_sentinel, reconcile_started_sentinel,
}
use kubernetes_redis_operato.Controller.Sentinel.Steps.{reconcile_sentinel-Later}
use kubernetes_redis_operato.Controller.Sentinel.Roles.{
  label_after, selected_role, reconcile_role_labels_without_client, IsServed,
  reconcile_role_labels-IsServed,
}
use kubernetes_redis_operato.Controller.Cluster.{reconcile_cluster}
use kubernetes_redis_operato.Controller.Cluster.Requeued.{IsRequeued, reconcile_cluster-IsRequeued}
use kubernetes_redis_operato.Controller.Reconcile.Live.{Yields, IsLater}
use kubernetes_redis_operato.Controller.Reconcile.History.{
  Issued, SentinelRuns, AreMoves, SentinelRuns-AreMoves,
}
use kubernetes_redis_operato.Tests.World.{accepts, list_for, addr_a, world, runtime}

abbrev disk : Option StorageSpec
disk = some (record { class_name = none; size = codes "1Gi"; keep_after_deletion = false })

abbrev settings : Map Str
settings = (codes "hz", codes "20") ∷ (codes "appendfsync", codes "always") ∷ []

abbrev pub server : RedisInstance
server = record {
  name = codes "one";
  namespace = codes "prod";
  spec = record {
    image = default_redis_image;
    storage = disk;
    redis_config = some settings;
    auth = some (codes "secret");
    tls = none;
    enable_exporter = some true;
    exporter_image = default_exporter_image;
  };
  phase = Phase.unset;
}

abbrev pub watched : RedisSentinel
watched = record {
  name = codes "ha";
  namespace = codes "prod";
  spec = record {
    replicas = pos 2;
    sentinel_replicas = pos 3;
    image = default_redis_image;
    sentinel_image = default_redis_image;
    storage = disk;
    redis_config = some settings;
    sentinel_config = none;
    auth = none;
    tls = none;
    enable_exporter = none;
    exporter_image = default_exporter_image;
  };
  phase = Phase.unset;
  master_node = codes "ha-0";
}

abbrev pub cluster : RedisCluster
cluster = record {
  name = codes "cache";
  namespace = codes "prod";
  spec = record {
    masters = pos 3;
    replicas_per_master = pos 0;
    image = default_redis_image;
    storage = disk;
    redis_config = some settings;
    auth = none;
    tls = none;
    enable_exporter = some true;
    exporter_image = default_exporter_image;
  };
  phase = Phase.ready;
}

abbrev pub present : Meta
present = record { deleting = false; finalizer = true; annotations = [] }

abbrev pod : Str → Str → Str → Pod
pod name ip role = record {
  name = name;
  pod_ip = ip;
  labels = (role_label_key, role) ∷ [];
  conditions = (codes "Ready", codes "True") ∷ [];
}

-- The second pod is the master now.
abbrev first_pod : Pod
first_pod = pod (codes "ha-0") (codes "10.0.0.9") (codes "master")

abbrev second_pod : Pod
second_pod = pod (codes "ha-1") (codes "10.0.0.1") (codes "replica")

abbrev pub kube : Kube
kube = record {
  update = accepts tt;
  update_status = accepts tt;
  apply = accepts tt;
  list_pods = accepts (first_pod ∷ second_pod ∷ []);
  patch = accepts tt;
  patch_object = accepts Phase.ready;
  list_claims = accepts (codes "data-0" ∷ codes "data-1" ∷ []);
  get_claim = accepts tt;
  delete_claim = accepts tt;
  get_secret = accepts tt;
  is_not_found = λ e. false;
}

abbrev refuses : Log → Error ⊎ (Unit {0})
refuses l = inl (Error.external 1)

abbrev refusing : Kube
refusing = record kube { apply = refuses; delete_claim = refuses }

-- A stand-in for the hash.
abbrev pub same_text : Str → Str
same_text s = s

reconcile_role_labels-IsServed_example : IsServed kube (some world) watched [] second_pod
reconcile_role_labels-IsServed_example =
    reconcile_role_labels-IsServed kube (some world) watched [] (first_pod ∷ []) [] second_pod refl

reconcile_sentinel-Later_example :
    Yields IsLater
      (reconcile_sentinel kube runtime (some world) same_text (accepts (present, watched)) []).0
reconcile_sentinel-Later_example =
    reconcile_sentinel-Later kube runtime (some world) same_text (accepts (present, watched)) []
      present watched refl refl

abbrev cluster_label : Map Str
cluster_label = (label_cluster, codes "cache") ∷ []

fail_over_all-once_example : FailsOverOnce runtime world kube (list_for addr_a) []
fail_over_all-once_example = fail_over_all-once runtime world kube (list_for addr_a) [] Perm.refl

try_cluster_hot_reload-IsReload_example :
    IssuesAt
      (IsPush (IsMasterAddr cluster) settings)
      (try_cluster_hot_reload runtime world cluster)
      []
try_cluster_hot_reload-IsReload_example = try_cluster_hot_reload-IsReload runtime world cluster []

-- Maps are visited forwards, or backwards.
abbrev backwards : Visit
backwards m = reverse (keys m)

keys-IsVisit : IsVisit keys
keys-IsVisit m = Perm.refl (keys m)

backwards-IsVisit : IsVisit backwards
backwards-IsVisit m = reverse_perm (keys m)

build_config_maps-determined_example :
    (build_redis_config_map keys server ≡ build_redis_config_map backwards server)
    × (build_sentinel_redis_config_map keys watched
        ≡ build_sentinel_redis_config_map backwards watched)
    × (build_sentinel_config_map keys watched (codes "m")
        ≡ build_sentinel_config_map backwards watched (codes "m"))
    × (build_cluster_config_map keys cluster ≡ build_cluster_config_map backwards cluster)
    × (config_data_hash keys same_text settings ≡ config_data_hash backwards same_text settings)
build_config_maps-determined_example =
    build_config_maps-determined keys backwards keys-IsVisit backwards-IsVisit same_text server
      watched cluster (codes "m") settings

-- The service after Kubernetes gave it an address, with another selector.
abbrev stored : Service
stored = record {
  name = codes "one";
  namespace = codes "prod";
  labels = [];
  annotations = [];
  spec = record {
    cluster_ip = codes "10.96.0.7";
    selector = [];
    ports = [];
    publish_not_ready_addresses = true;
  };
}

abbrev wanted : Service
wanted = build_headless_service (codes "one") (codes "prod") component_redis

-- A run whose first write fails.
failed_write :
    Issued
      (reconcile_live_sentinel refusing runtime (some world) same_text present watched)
      []
      (Command.update_status Phase.failed)
unfolding reconcile_live_sentinel reconcile_started_sentinel
failed_write = record {
  later = [];
  earlier =
      Command.apply (Resource.config_map (build_sentinel_redis_config_map keys watched))
      ∷ Command.update_status Phase.initializing
      ∷ [];
  is_log = refl;
}

SentinelRuns-AreMoves_example : AreMoves Phase.unset (Phase.failed ∷ [])
SentinelRuns-AreMoves_example =
    SentinelRuns-AreMoves refusing runtime (some world) same_text
      (SentinelRuns.run present watched [] failed_write SentinelRuns.done)

reconcile_cluster-IsRequeued_example :
    IsRequeued
      (reconcile_cluster kube runtime world same_text 100 (accepts (present, cluster)) []).0
reconcile_cluster-IsRequeued_example =
    reconcile_cluster-IsRequeued kube runtime world same_text 100 (accepts (present, cluster)) []
      present cluster refl refl

workloads-mounts_defined_example :
    (mounts_defined (build_redis_deployment server) ≡ true)
    × (mounts_defined (build_redis_stateful_set server) ≡ true)
    × (mounts_defined (build_sentinel_redis_stateful_set watched) ≡ true)
    × (mounts_defined (build_sentinel_deployment watched) ≡ true)
    × (mounts_defined (build_cluster_master_stateful_set cluster) ≡ true)
    × (mounts_defined (build_cluster_replica_stateful_set cluster) ≡ true)
workloads-mounts_defined_example = workloads-mounts_defined server watched cluster

-- The pod that the sentinels would name does not become the master.
reconcile_role_labels_without_client_example :
    (es : List Command) × (reconcile_role_labels kube none watched []
      ≡ (Result.ok (codes "ha-0"), emit es (Command.list_pods component_redis ∷ [])))
    × ((label_after (codes "ha-1") (value_of role_label_key second_pod.labels) es
          ≡ selected_role (build_sentinel_master_service watched))
        ↔ (codes "ha-1" ≡ codes "ha-0"))
reconcile_role_labels_without_client_example =
    reconcile_role_labels_without_client kube watched [] (first_pod ∷ []) [] second_pod refl
