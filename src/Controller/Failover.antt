-- ===== src/Controller/Failover.antt =====
-- `tryClusterRollingFailover` of internal/controller/rediscluster_controller.go, for a reconciler that
-- has a `RedisClient` and a `ClusterManager`.
pub mod OnePerMaster
use kubernetes_redis_operato.Prelude.{
  ◌⊎◌, Bool, true, false, ◌||◌, ◌&&◌, List, [], ◌∷◌, Option, none, some, inl, inr, if◌then◌else◌,
}
use kubernetes_redis_operato.Prelude.Int.{pos}
use kubernetes_redis_operato.Go.Text.{Str, codes, str_eq, contains}
use kubernetes_redis_operato.Go.Map.{Map}
use kubernetes_redis_operato.Api.Cluster.{config_of}
use kubernetes_redis_operato.Api.Types.{Phase}
use kubernetes_redis_operato.Api.Objects.{Meta, RedisCluster}
use kubernetes_redis_operato.Redis.Effect.{
  Error, Log, M, pure, attempt, ignoring, for_each, ◌>>=◌, ◌>>◌,
}
use kubernetes_redis_operato.Redis.Node.{ClusterNode, is_master}
use kubernetes_redis_operato.Redis.Client.{RedisClient, Runtime}
use kubernetes_redis_operato.Redis.Calls
use kubernetes_redis_operato.Redis.Members.{ClusterState, get_cluster_state}
use kubernetes_redis_operato.Resources.Config.{keys, value_of}
use kubernetes_redis_operato.Controller.Names.{cluster_master_addr}
use kubernetes_redis_operato.Controller.Kube.{Kube, patch_hash}
use kubernetes_redis_operato.Controller.Reload.{is_hot}

abbrev pub last_config_hash_annotation : Str
last_config_hash_annotation = codes "redis.example.com/last-config-hash"

-- A key that cannot be set at run time is among the settings.
unfoldable pub has_cold : List Str → Bool
unfolding is_hot
has_cold [] = false
has_cold (k ∷ ks) = if is_hot k then has_cold ks else true

-- `masterIDs`: the identifiers of the masters, each once.
unfoldable pub master_id_set : List ClusterNode → List Str → List Str
unfolding is_master contains
master_id_set [] ids = ids
master_id_set (n ∷ nodes) ids = master_id_set nodes (
    if is_master n && (if contains ids n.node_id then false else true)
    then n.node_id ∷ ids
    else ids)

-- The first node that is no master and follows the given one.
unfoldable pub first_replica_of : Str → List ClusterNode → Option ClusterNode
unfolding is_master str_eq
first_replica_of id [] = none
first_replica_of id (n ∷ nodes) =
    if str_eq n.master_id id && (if is_master n then false else true)
    then some n
    else first_replica_of id nodes

module _ (rt : Runtime) (c : RedisClient) (k : Kube) where
  -- The phase in memory after the request: an error leaves it as it is.
  abbrev pub phase_after : Phase → Error ⊎ Phase → Phase
  phase_after phase (inl e) = phase
  phase_after phase (inr stored) = stored

  abbrev pub record_last_config_hash : Meta → Str → Phase → M Phase
  record_last_config_hash m hash phase =
      if str_eq (value_of last_config_hash_annotation m.annotations) hash
      then pure phase
      else attempt (patch_hash k hash) >>= λ r. pure (phase_after phase r)

  abbrev pub fail_over : Option ClusterNode → M (Unit {0})
  fail_over none = pure tt
  fail_over (some n) = ignoring (Calls.cluster_failover c n.addr)

  -- One replica of every master, the masters in the order in which `range` visits them.
  unfoldable pub fail_over_all : List ClusterNode → M (Unit {0})
  unfolding master_id_set first_replica_of for_each
  fail_over_all nodes l =
      for_each (λ id. fail_over (first_replica_of id nodes))
        (rt.visit_keys l (master_id_set nodes [])) l

  -- Whether the hash is new, and not the first.
  abbrev pub is_change : Str → Str → Bool
  is_change [] hash = false
  is_change (a ∷ s) hash = if str_eq (a ∷ s) hash then false else true

  -- The result is the phase in memory afterwards.
  unfoldable pub try_cluster_rolling_failover : Meta → RedisCluster → Str → M Phase
  unfolding has_cold get_cluster_state fail_over_all cluster_master_addr str_eq
  try_cluster_rolling_failover m rc hash =
      if is_change (value_of last_config_hash_annotation m.annotations) hash
        && has_cold (keys (config_of rc.spec.redis_config))
      then (do
        r ← attempt (get_cluster_state c (cluster_master_addr rc (pos 0)))
        elim r [
          | inl _ ↦ record_last_config_hash m hash rc.phase
          | inr s ↦ fail_over_all s.nodes >> record_last_config_hash m hash rc.phase
        ])
      else record_last_config_hash m hash rc.phase
