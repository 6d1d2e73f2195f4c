-- ===== src/Redis/Calls.antt =====
-- The methods of `RedisClient` as commands that leave their mark in the log.
use kubernetes_redis_operato.Prelude.{ℕ, Bool, List, ◌∷◌}
use kubernetes_redis_operato.Prelude.Int.{ℤ}
use kubernetes_redis_operato.Go.Text.{Str}
use kubernetes_redis_operato.Go.Map.{Map}
use kubernetes_redis_operato.Redis.Effect.{Command, Result, M, call}
use kubernetes_redis_operato.Redis.Node.{ClusterInfo, ClusterNode}
use kubernetes_redis_operato.Redis.Client.{RedisClient, Runtime}

module _ (c : RedisClient) where
  abbrev pub ping : Str → M (Unit {0})
  ping addr = call (Command.ping addr) c.ping

  abbrev pub info : Str → Str → M (Map Str)
  info addr section = call (Command.info addr section) c.info

  abbrev pub config_set : Str → Str → Str → M (Unit {0})
  config_set addr param value = call (Command.config_set addr param value) c.config_set

  abbrev pub cluster_info : Str → M ClusterInfo
  cluster_info addr = call (Command.cluster_info addr) c.cluster_info

  abbrev pub cluster_nodes : Str → M (List ClusterNode)
  cluster_nodes addr = call (Command.cluster_nodes addr) c.cluster_nodes

  abbrev pub cluster_meet : Str → Str → ℤ → M (Unit {0})
  cluster_meet addr ip port = call (Command.cluster_meet addr ip port) c.cluster_meet

  abbrev pub cluster_add_slots : Str → List ℤ → M (Unit {0})
  cluster_add_slots addr slots = call (Command.cluster_add_slots addr slots) c.cluster_add_slots

  abbrev pub cluster_replicate : Str → Str → M (Unit {0})
  cluster_replicate addr master_id =
      call (Command.cluster_replicate addr master_id) c.cluster_replicate

  abbrev pub cluster_failover : Str → M (Unit {0})
  cluster_failover addr = call (Command.cluster_failover addr) c.cluster_failover

  abbrev pub cluster_forget : Str → Str → M (Unit {0})
  cluster_forget addr id = call (Command.cluster_forget addr id) c.cluster_forget

  abbrev pub cluster_reset : Str → Bool → M (Unit {0})
  cluster_reset addr hard = call (Command.cluster_reset addr hard) c.cluster_reset

  abbrev pub cluster_set_slot : Str → ℤ → Str → Str → M (Unit {0})
  cluster_set_slot addr slot state id =
      call (Command.cluster_set_slot addr slot state id) c.cluster_set_slot

  abbrev pub cluster_get_keys_in_slot : Str → ℤ → ℕ → M (List Str)
  cluster_get_keys_in_slot addr slot count =
      call (Command.cluster_get_keys_in_slot addr slot count) c.cluster_get_keys_in_slot

  abbrev pub migrate : Str → Str → ℤ → Str → ℕ → ℕ → M (Unit {0})
  migrate addr ip port key db timeout = call (Command.migrate addr ip port key db timeout) c.migrate

  abbrev pub sentinel_master : Str → Str → M (Map Str)
  sentinel_master addr master = call (Command.sentinel_master addr master) c.sentinel_master

  abbrev pub sentinel_get_master_addr : Str → Str → M (Str × ℤ)
  sentinel_get_master_addr addr master =
      call (Command.sentinel_get_master_addr addr master) c.sentinel_get_master_addr

  abbrev pub sentinel_failover : Str → Str → M (Unit {0})
  sentinel_failover addr master = call (Command.sentinel_failover addr master) c.sentinel_failover

  abbrev pub sentinel_reset : Str → Str → M (Unit {0})
  sentinel_reset addr glob = call (Command.sentinel_reset addr glob) c.sentinel_reset

  abbrev pub role : Str → M Str
  role addr = call (Command.role addr) c.role

module _ (rt : Runtime) where
  -- `time.Now()`
  abbrev pub clock : M ℕ
  clock = λ l. (Result.ok (rt.now (Command.clock ∷ l)), Command.clock ∷ l)

  -- `select { case <-ctx.Done(): return ctx.Err() case <-time.After(d): }`
  abbrev pub wait : ℕ → M (Unit {0})
  wait d = call (Command.wait d) rt.select
