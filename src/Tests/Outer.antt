-- ===== src/Tests/Outer.antt =====
-- The webhooks and the controller of RedisCluster at concrete data.
use kubernetes_redis_operato.Api.Cluster.History.{History, IsKept, History-IsKept}
use kubernetes_redis_operato.Prelude.{
  ℕ, ◌^◌, ◌≡◌, refl, arith, false, true, Option, none, some, List, [], ◌∷◌, length,
}
use kubernetes_redis_operato.Prelude.Int.{ℤ, pos}
use kubernetes_redis_operato.Go.Text.{Str, codes}
use kubernetes_redis_operato.Api.Types.{
  RedisClusterSpec, StorageSpec, Phase, default_redis_image, default_exporter_image,
}
use kubernetes_redis_operato.Api.Storage.{Quantity, check_size, check_storage_update}
use kubernetes_redis_operato.Api.Cluster.{validate_cluster_spec, validate_cluster_update}
use kubernetes_redis_operato.Api.Cluster.Accepted.{
  IsUpdate, validate_cluster_update-IsUpdate, overflow_accepted,
}
use kubernetes_redis_operato.Redis.Node.{ClusterNode}
use kubernetes_redis_operato.Redis.Client.{RedisClient}
use kubernetes_redis_operato.Api.Objects.{RedisCluster}
use kubernetes_redis_operato.Controller.Names.{cluster_master_addr}
use kubernetes_redis_operato.Controller.Kube.{Kube, Pod}
use kubernetes_redis_operato.Controller.Lifecycle.{reconcile_scale_out}
use kubernetes_redis_operato.Controller.Lifecycle.ScaleOut.{IsMeeting, reconcile_scale_out_unlisted}
use kubernetes_redis_operato.Redis.Loops.{IssuesAt}
use kubernetes_redis_operato.Controller.Lifecycle.Lookups.{Unlisted}
use kubernetes_redis_operato.Tests.World.{accepts, member, world, runtime}

abbrev spec : ℕ → ℕ → Option StorageSpec → RedisClusterSpec
spec m r storage = record {
  masters = pos m;
  replicas_per_master = pos r;
  image = default_redis_image;
  storage = storage;
  redis_config = none;
  auth = none;
  tls = none;
  enable_exporter = some true;
  exporter_image = default_exporter_image;
}

-- The length of a text, as a stand-in for its quantity.
abbrev by_length : Quantity
by_length s = some (pos (length s))

abbrev disk : Str → Option StorageSpec
disk size =
    some (record { class_name = some (codes "fast"); size = size; keep_after_deletion = false })

accepted_update :
    validate_cluster_update by_length
      (spec 4 1 (disk (codes "1Gi")))
      Phase.ready
      (spec 3 1 (disk (codes "10Gi")))
    ≡ none
unfolding validate_cluster_update
accepted_update = refl

accepted_spec : validate_cluster_spec by_length (spec 3 2 none) ≡ none
unfolding validate_cluster_spec
accepted_spec = refl

grown : check_storage_update by_length (disk (codes "1Gi")) (disk (codes "10Gi")) ≡ none
unfolding check_storage_update
grown = refl

validate_cluster_update-IsUpdate_example :
    IsUpdate by_length (spec 4 1 (disk (codes "1Gi"))) Phase.ready (spec 3 1 (disk (codes "10Gi")))
validate_cluster_update-IsUpdate_example =
    validate_cluster_update-IsUpdate by_length (spec 4 1 (disk (codes "1Gi"))) Phase.ready
      (spec 3 1 (disk (codes "10Gi"))) (omega arith) accepted_update

-- Four masters with 2 ^ 30 replicas each
overflow_accepted_example : validate_cluster_spec by_length (spec 4 (2 ^ 30) none) ≡ none
overflow_accepted_example =
    overflow_accepted by_length (spec 4 (2 ^ 30) none) 4 (2 ^ 30) 1 refl refl (omega arith)
      (omega arith) refl refl

abbrev pub cache : ℕ → RedisCluster
cache m = record {
  name = codes "cache";
  namespace = codes "prod";
  spec = spec m 0 none;
  phase = Phase.recovering;
}

master_two :
    cluster_master_addr (cache 3) (pos 2)
    ≡ codes "cache-masters-2.cache-master-headless.prod.svc.cluster.local:6379"
unfolding cluster_master_addr
master_two = refl

abbrev pub kube : Kube
kube = record {
  update = accepts tt;
  update_status = accepts tt;
  apply = accepts tt;
  list_pods = accepts [];
  patch = accepts tt;
  patch_object = accepts Phase.ready;
  list_claims = accepts [];
  get_claim = accepts tt;
  delete_claim = accepts tt;
  get_secret = accepts tt;
  is_not_found = λ e. false;
}

abbrev pub two_masters : List ClusterNode
two_masters =
    member [] (codes "n0") (cluster_master_addr (cache 1) (pos 0)) (pos 0) (pos 8191)
    ∷ member [] (codes "n1") (cluster_master_addr (cache 1) (pos 1)) (pos 8192) (pos 16383)
    ∷ []

abbrev pub pair : RedisClient
pair = record world { cluster_nodes = accepts two_masters }

-- Two masters that announce their addresses in the network of the pods.
abbrev announced : List ClusterNode
announced =
    member [] (codes "n0") (codes "10.0.0.1:6379") (pos 0) (pos 8191)
    ∷ member [] (codes "n1") (codes "10.0.0.2:6379") (pos 8192) (pos 16383)
    ∷ []

abbrev by_ip : RedisClient
by_ip = record world { cluster_nodes = accepts announced }

no_master : (m : ℕ) (i : ℤ) → Unlisted by_ip (cluster_master_addr (cache m) i)
unfolding cluster_master_addr
no_master m i l nodes h = let e : nodes ≡ announced = cc in rw e ((λ q. cc), ((λ q. cc), tt))

abbrev ready_pod : Pod
ready_pod = record {
  name = codes "cache-masters-0";
  pod_ip = codes "10.0.0.1";
  labels = [];
  conditions = (codes "Ready", codes "True") ∷ [];
}

abbrev ready_kube : Kube
ready_kube = record kube { list_pods = accepts (ready_pod ∷ ready_pod ∷ []) }

reconcile_scale_out_unlisted_example :
    IssuesAt IsMeeting (reconcile_scale_out runtime by_ip ready_kube 5 (cache 2) (pos 1)) []
reconcile_scale_out_unlisted_example =
    reconcile_scale_out_unlisted runtime by_ip ready_kube 5 (cache 2) (no_master 2) (pos 1) []

accepted_first : validate_cluster_spec by_length (spec 4 1 (disk (codes "1Gi"))) ≡ none
unfolding validate_cluster_spec check_size
accepted_first = refl

History-IsKept_example :
    IsKept by_length (spec 4 1 (disk (codes "1Gi"))) (spec 3 1 (disk (codes "10Gi")))
History-IsKept_example =
    History-IsKept by_length (spec 4 1 (disk (codes "1Gi"))) (spec 3 1 (disk (codes "10Gi"))) (
      History.updated Phase.ready (spec 3 1 (disk (codes "10Gi"))) (History.created accepted_first)
        (omega arith) accepted_update)
