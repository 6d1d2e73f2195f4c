-- ===== src/Tests/Upgrade.antt =====
-- Changed custom resources, and what is written for them.
use kubernetes_redis_operato.Prelude.{refl}
use kubernetes_redis_operato.Prelude.Int.{pos}
use kubernetes_redis_operato.Go.Text.{codes}
use kubernetes_redis_operato.Api.Objects.{RedisInstance, RedisSentinel, RedisCluster}
use kubernetes_redis_operato.Resources.Workload.{
  build_redis_stateful_set, build_redis_deployment, build_sentinel_redis_stateful_set,
  build_sentinel_deployment, build_cluster_master_stateful_set, build_cluster_replica_stateful_set,
}
use kubernetes_redis_operato.Controller.Apply.Upgrade.{Upgrades, mutate_workload-Upgrades}
use kubernetes_redis_operato.Tests.Objects.{server, watched, cluster}

-- Another image, more replicas, and one master more.
abbrev new_server : RedisInstance
new_server = record server { spec = record server.spec { image = codes "redis:8" } }

abbrev new_watched : RedisSentinel
new_watched = record watched { spec = record watched.spec { replicas = pos 5 } }

abbrev new_cluster : RedisCluster
new_cluster = record cluster { spec = record cluster.spec { masters = pos 4 } }

mutate_workload-Upgrades_example :
    Upgrades build_redis_stateful_set server new_server
    × Upgrades build_redis_deployment server new_server
    × Upgrades build_sentinel_redis_stateful_set watched new_watched
    × Upgrades build_sentinel_deployment watched new_watched
    × Upgrades build_cluster_master_stateful_set cluster new_cluster
    × Upgrades build_cluster_replica_stateful_set cluster new_cluster
mutate_workload-Upgrades_example =
    mutate_workload-Upgrades server new_server watched new_watched cluster new_cluster (refl, refl)
      (refl, refl) (refl, refl)
