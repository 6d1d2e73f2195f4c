-- ===== src/Redis/Slots.antt =====
-- `AssignSlotsEvenly` of internal/redis/cluster.go.
pub mod Partition
use kubernetes_redis_operato.Prelude.{
  ℕ, zero, suc, ◌+◌, ◌-◌, ◌*◌, ◌/◌, ◌==◌, List, [], ◌∷◌, length, if◌then◌else◌,
}
use kubernetes_redis_operato.Prelude.Int.{ℤ, pos}
use kubernetes_redis_operato.Go.Text.{Str}
use kubernetes_redis_operato.Redis.Effect.{Error, M, pure, fail, wrapping, ◌>>◌}
use kubernetes_redis_operato.Redis.Node.{total_hash_slots}
use kubernetes_redis_operato.Redis.Client.{RedisClient}
use kubernetes_redis_operato.Redis.Calls

-- The numbers from `start`, as many as `count`.
unfoldable pub range_from : ℕ → ℕ → List ℤ
range_from start zero = []
range_from start (suc count) = pos start ∷ range_from (start + 1) count

-- The slots of master `i` of `n`. The source counts up to an inclusive `end`, which is -1 for an
-- empty share of master 0; `stop` is `end + 1`.
unfoldable pub share : ℕ → ℕ → List ℤ
unfolding range_from
share n i =
    let slots_per_master = total_hash_slots / n in
    let start = i * slots_per_master in
    let stop = if i == n - 1 then total_hash_slots else start + slots_per_master in
    range_from start (stop - start)

module _ (c : RedisClient) where
  unfoldable pub assign_from : ℕ → ℕ → List Str → M (Unit {0})
  unfolding share
  assign_from n i [] = pure tt
  assign_from n i (addr ∷ addrs) = do
    wrapping (Error.add_slots_failed addr) (Calls.cluster_add_slots c addr (share n i))
    assign_from n (i + 1) addrs

  unfoldable pub assign_slots_evenly : List Str → M (Unit {0})
  unfolding assign_from
  assign_slots_evenly [] = fail Error.no_masters
  assign_slots_evenly (addr ∷ addrs) = assign_from (length (addr ∷ addrs)) 0 (addr ∷ addrs)
