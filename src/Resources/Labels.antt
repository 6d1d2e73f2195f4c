-- ===== src/Resources/Labels.antt =====
-- The labels and names of internal/resources/labels.go, and the ports of service.go.
use kubernetes_redis_operato.Prelude.{ℕ, ◌||◌, [], ◌∷◌, ◌++◌, if◌then◌else◌}
use kubernetes_redis_operato.Go.Text.{Str, codes, str_eq}
use kubernetes_redis_operato.Go.Map.{Map}

abbrev pub label_name : Str
label_name = codes "app.kubernetes.io/name"

abbrev pub label_instance : Str
label_instance = codes "app.kubernetes.io/instance"

abbrev pub label_component : Str
label_component = codes "app.kubernetes.io/component"

abbrev pub label_managed_by : Str
label_managed_by = codes "app.kubernetes.io/managed-by"

abbrev pub label_part_of : Str
label_part_of = codes "app.kubernetes.io/part-of"

abbrev pub label_cluster : Str
label_cluster = codes "redis.example.com/cluster"

abbrev pub component_master : Str
component_master = codes "master"

abbrev pub component_replica : Str
component_replica = codes "replica"

abbrev pub component_sentinel : Str
component_sentinel = codes "sentinel"

abbrev pub component_redis : Str
component_redis = codes "redis"

abbrev pub role_label_key : Str
role_label_key = codes "redis.example.com/role"

abbrev pub role_master : Str
role_master = codes "master"

abbrev pub role_replica : Str
role_replica = codes "replica"

abbrev pub redis_port : ℕ
redis_port = 6379

abbrev pub sentinel_port : ℕ
sentinel_port = 26379

abbrev pub redis_cluster_bus : ℕ
redis_cluster_bus = 16379

abbrev pub common_labels : Str → Str → Map Str
common_labels name component =
    (label_name, codes "redis")
    ∷ (label_instance, name)
    ∷ (label_component, component)
    ∷ (label_managed_by, codes "redis-operator")
    ∷ (label_part_of, codes "redis")
    ∷ (label_cluster, name)
    ∷ []

abbrev pub pod_labels : Str → Str → Map Str
pod_labels = common_labels

unfoldable pub statefulset_name : Str → Str → Str
unfolding str_eq
statefulset_name cr component =
    if str_eq component component_redis || str_eq component component_master
    then cr
    else cr ++ b'-' ∷ component

abbrev pub cluster_master_statefulset_name : Str → Str
cluster_master_statefulset_name cr = cr ++ codes "-masters"

abbrev pub cluster_replica_statefulset_name : Str → Str
cluster_replica_statefulset_name cr = cr ++ codes "-replicas"

abbrev pub headless_service_name : Str → Str → Str
headless_service_name cr component = cr ++ b'-' ∷ component ++ codes "-headless"

abbrev pub pod_fqdn : Str → Str → Str → Str
pod_fqdn pod headless namespace =
    pod ++ b'.' ∷ headless ++ b'.' ∷ namespace ++ codes ".svc.cluster.local"
