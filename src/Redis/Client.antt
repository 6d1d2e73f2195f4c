-- ===== src/Redis/Client.antt =====
-- The interface `RedisClient` of internal/redis/client.go, and what the Go runtime decides: time,
-- the end of the context and the order in which a map is visited. An answer may depend on all that
-- the process did before, the command itself included, which stands first in the log.
use kubernetes_redis_operato.Prelude.{ℕ, List, ◌⊎◌}
use kubernetes_redis_operato.Prelude.Int.{ℤ}
use kubernetes_redis_operato.Go.Text.{Str}
use kubernetes_redis_operato.Go.Map.{Map}
use kubernetes_redis_operato.Redis.Effect.{Error, Log}
use kubernetes_redis_operato.Redis.Node.{ClusterInfo, ClusterNode}

pub record RedisClient : Type 0 where
  pub ping : Log → Error ⊎ (Unit {0})
  pub info : Log → Error ⊎ (Map Str)
  pub config_set : Log → Error ⊎ (Unit {0})
  pub config_get : Log → Error ⊎ Str
  pub save : Log → Error ⊎ (Unit {0})
  pub cluster_info : Log → Error ⊎ ClusterInfo
  pub cluster_nodes : Log → Error ⊎ (List ClusterNode)
  pub cluster_meet : Log → Error ⊎ (Unit {0})
  pub cluster_add_slots : Log → Error ⊎ (Unit {0})
  pub cluster_del_slots : Log → Error ⊎ (Unit {0})
  pub cluster_replicate : Log → Error ⊎ (Unit {0})
  pub cluster_failover : Log → Error ⊎ (Unit {0})
  pub cluster_forget : Log → Error ⊎ (Unit {0})
  pub cluster_reset : Log → Error ⊎ (Unit {0})
  pub cluster_set_slot : Log → Error ⊎ (Unit {0})
  pub cluster_get_keys_in_slot : Log → Error ⊎ (List Str)
  pub cluster_count_keys_in_slot : Log → Error ⊎ ℤ
  pub migrate : Log → Error ⊎ (Unit {0})
  pub sentinel_master : Log → Error ⊎ (Map Str)
  pub sentinel_get_master_addr : Log → Error ⊎ (Str × ℤ)
  pub sentinel_failover : Log → Error ⊎ (Unit {0})
  pub sentinel_reset : Log → Error ⊎ (Unit {0})
  pub replica_of : Log → Error ⊎ (Unit {0})
  pub role : Log → Error ⊎ Str

pub record Runtime : Type 0 where
  -- `time.Now()`, in nanoseconds
  pub now : Log → ℕ
  -- `select` on the context and a timer: the error of the context if that is done first
  pub select : Log → Error ⊎ (Unit {0})
  -- the order in which `range` visits a map of counts
  pub visit : Log → Map ℤ → Map ℤ
  -- the order in which `range` visits the keys of another map
  pub visit_keys : Log → List Str → List Str
