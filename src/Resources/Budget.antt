-- ===== src/Resources/Budget.antt =====
-- The builders of internal/resources/pdb.go.
use kubernetes_redis_operato.Prelude.{◌++◌}
use kubernetes_redis_operato.Go.Text.{Str, codes}
use kubernetes_redis_operato.Api.Objects.{RedisSentinel, RedisCluster}
use kubernetes_redis_operato.Resources.Labels.{
  common_labels, pod_labels, component_redis, component_master, component_replica,
  component_sentinel,
}
use kubernetes_redis_operato.Resources.Object.{Budget}

-- A budget for the pods of a component.
abbrev budget_for : Str → Str → Str → Str → Budget
budget_for budget name namespace component = record {
  name = budget;
  namespace = namespace;
  labels = common_labels name component;
  match_labels = pod_labels name component;
}

unfoldable pub build_sentinel_redis_pdb : RedisSentinel → Budget
build_sentinel_redis_pdb rs =
    budget_for (rs.name ++ codes "-redis-pdb") rs.name rs.namespace component_redis

unfoldable pub build_sentinel_pdb : RedisSentinel → Budget
build_sentinel_pdb rs =
    budget_for (rs.name ++ codes "-sentinel-pdb") rs.name rs.namespace component_sentinel

unfoldable pub build_cluster_master_pdb : RedisCluster → Budget
build_cluster_master_pdb rc =
    budget_for (rc.name ++ codes "-masters-pdb") rc.name rc.namespace component_master

unfoldable pub build_cluster_replica_pdb : RedisCluster → Budget
build_cluster_replica_pdb rc =
    budget_for (rc.name ++ codes "-replicas-pdb") rc.name rc.namespace component_replica
