-- ===== src/Redis/Sentinel.antt =====
-- `SentinelManager` of internal/redis/sentinel.go. The polling loops take fuel, one unit for each
-- round.
pub mod Quorum
use kubernetes_redis_operato.Prelude.{
  ℕ, suc, zero, ◌+◌, ◌||◌, Bool, false, true, List, [], ◌∷◌, ◌++◌, Option, none, some, inl, inr,
  ltb, if◌then◌else◌,
}
use kubernetes_redis_operato.Prelude.Int.{ℤ, pos, ltb_ℤ}
use kubernetes_redis_operato.Go.Text.{Str, codes, str_eq}
use kubernetes_redis_operato.Go.Number.{atoi_value, itoa_ℤ}
use kubernetes_redis_operato.Go.Map.{Map, lookup, or_zero}
use kubernetes_redis_operato.Redis.Effect.{Error, M, pure, wrapping, attempt, ◌>>=◌, ◌>>◌}
use kubernetes_redis_operato.Redis.Client.{RedisClient, Runtime}
use kubernetes_redis_operato.Redis.Wait.{poll}
use kubernetes_redis_operato.Redis.Calls

abbrev pub field : Str → Map Str → Str
field k m = or_zero [] (lookup k m)

-- `info["status"] == "ok" || info["flags"] == "master"`
unfoldable pub reports_master : Map Str → Bool
unfolding lookup str_eq
reports_master m =
    str_eq (field (codes "status") m) (codes "ok")
    || str_eq (field (codes "flags") m) (codes "master")

-- `role == "slave" && fmt.Sprintf("%s:%d", masterIP, masterPort) == masterAddr`
unfoldable pub follows : Str → Map Str → Bool
unfolding lookup str_eq atoi_value itoa_ℤ
follows master m =
    if str_eq (field (codes "role") m) (codes "slave")
    then str_eq
        (field (codes "master_host") m
          ++ b':' ∷ itoa_ℤ (atoi_value (field (codes "master_port") m)))
        master
    else false

abbrev tally : Bool → ℕ → ℕ
tally true n = suc n
tally false n = n

abbrev some_master : Str × ℤ → Option (Str × ℤ)
some_master ([], port) = none
some_master (a ∷ ip, port) = some (a ∷ ip, port)

module _ (c : RedisClient) where
  abbrev pub get_master : Str → Str → M (Str × ℤ)
  get_master addr master = Calls.sentinel_get_master_addr c addr master

  abbrev pub trigger_failover : Str → Str → M (Unit {0})
  trigger_failover addr master = Calls.sentinel_failover c addr master

  abbrev pub reset_monitor : Str → Str → M (Unit {0})
  reset_monitor addr glob = Calls.sentinel_reset c addr glob

  abbrev pub get_master_info : Str → Str → M (Map Str)
  get_master_info addr master = Calls.sentinel_master c addr master

  unfoldable pub is_replica_of_master : Str → Str → M Bool
  unfolding follows
  is_replica_of_master addr master = do
    m ← wrapping (Error.info_failed addr) (Calls.info c addr (codes "replication"))
    pure (follows master m)

  abbrev pub probe_master : Str → Str → M (Option (Str × ℤ))
  probe_master addr master = do
    r ← attempt (get_master addr master)
    pure (elim r [ inl _ ↦ none | inr a ↦ some_master a ])

  -- The number of sentinels that report the master, added to `n`.
  unfoldable pub count_healthy : Str → ℕ → List Str → M ℕ
  unfolding reports_master
  count_healthy master n [] = pure n
  count_healthy master n (addr ∷ addrs) = do
    r ← attempt (Calls.sentinel_master c addr master)
    count_healthy master (elim r [ inl _ ↦ n | inr m ↦ tally (reports_master m) n ]) addrs

  -- A quorum is an int.
  abbrev pub probe_quorum : List Str → Str → ℤ → M (Option (Unit {0}))
  probe_quorum addrs master quorum = do
    n ← count_healthy master 0 addrs
    pure (if ltb_ℤ (pos n) quorum then none else some tt)

module _ (rt : Runtime) (c : RedisClient) (fuel : ℕ) where
  unfoldable pub wait_for_master : Str → Str → ℕ → M (Str × ℤ)
  wait_for_master addr master timeout = do
    start ← Calls.clock rt
    poll rt fuel (start + timeout) (probe_master c addr master) Error.no_sentinel_master

  unfoldable pub wait_for_sentinel_quorum : List Str → Str → ℤ → ℕ → M (Unit {0})
  unfolding count_healthy
  wait_for_sentinel_quorum addrs master quorum timeout = do
    start ← Calls.clock rt
    poll rt fuel (start + timeout) (probe_quorum c addrs master quorum) Error.no_quorum
