-- ===== src/Redis/Rebalance.antt =====
-- `RebalanceSlots` of internal/redis/cluster.go.
pub mod Idle
pub mod Bounded
pub mod Shares
use kubernetes_redis_operato.Prelude.{ℕ, ◌/◌, ◌||◌, List, [], ◌∷◌, length, if◌then◌else◌}
use kubernetes_redis_operato.Prelude.Int.{ℤ, pos, ◌-ℤ◌, ltb_ℤ, pos_part}
use kubernetes_redis_operato.Go.Text.{Str, str_eq}
use kubernetes_redis_operato.Go.Word.{int64}
use kubernetes_redis_operato.Go.Map.{Map, lookup, insert, or_zero}
use kubernetes_redis_operato.Redis.Effect.{Halt, Result, M, pure, stop, for_each, ◌>>=◌, ◌>>◌}
use kubernetes_redis_operato.Redis.Node.{
  ClusterNode, is_master, slot_total, node_id_for_addr, collect_slots, total_hash_slots,
}
use kubernetes_redis_operato.Redis.Migrate.{migrate_slot}
use kubernetes_redis_operato.Redis.Client.{RedisClient, Runtime}
use kubernetes_redis_operato.Redis.Calls

-- `slotCounts`: the slots of each master.
unfoldable pub slot_counts : Map ℤ → List ClusterNode → Map ℤ
unfolding is_master slot_total insert
slot_counts m [] = m
slot_counts m (n ∷ nodes) =
    slot_counts (if is_master n then insert n.node_id (slot_total (pos 0) n.slots) m else m) nodes

-- `nodeAddrByID`
unfoldable pub master_addrs : Map Str → List ClusterNode → Map Str
unfolding is_master insert
master_addrs m [] = m
master_addrs m (n ∷ nodes) =
    master_addrs (if is_master n then insert n.node_id n.addr m else m) nodes

-- `excess := count - target`
abbrev pub excess_of : ℤ → ℤ → ℤ
excess_of count target = int64 (count -ℤ target)

abbrev min_ℤ : ℤ → ℤ → ℤ
min_ℤ a b = if ltb_ℤ b a then b else a

module _ (c : RedisClient) (fuel : ℕ) (target : ℤ) (counts : Map ℤ) where
  -- What one receiver is given, and the excess that is left.
  unfoldable pub give : Str → Str → List ClusterNode → ℤ → Str → M ℤ
  unfolding str_eq node_id_for_addr lookup collect_slots for_each migrate_slot int64
  give donor_id donor_addr donor_nodes excess receiver =
      let id = node_id_for_addr donor_nodes receiver in
      let to_move = or_zero (pos 0) (lookup id counts) in
      let needed = min_ℤ (int64 (target -ℤ to_move)) excess in
      if str_eq receiver donor_addr || ltb_ℤ excess (pos 1)
      then pure excess
      else if str_eq id []
      then pure excess
      else if ltb_ℤ to_move target
      then (do
        for_each (migrate_slot c fuel donor_addr receiver)
            (collect_slots donor_nodes donor_id (pos_part needed))
        pure (int64 (excess -ℤ needed)))
      else pure excess

  unfoldable pub give_all : Str → Str → List ClusterNode → ℤ → List Str → M (Unit {0})
  unfolding give
  give_all donor_id donor_addr donor_nodes excess [] = pure tt
  give_all donor_id donor_addr donor_nodes excess (r ∷ rs) = do
    left ← give donor_id donor_addr donor_nodes excess r
    give_all donor_id donor_addr donor_nodes left rs

  -- One entry of `slotCounts`: it gives only if it has more than the target.
  unfoldable pub donate : List Str → Map Str → Str × ℤ → M (Unit {0})
  unfolding give_all lookup int64
  donate receivers addrs (donor_id, count) =
      let excess = excess_of count target in
      let donor_addr = or_zero [] (lookup donor_id addrs) in
      if ltb_ℤ (pos 0) excess
      then (do
        donor_nodes ← Calls.cluster_nodes c donor_addr
        give_all donor_id donor_addr donor_nodes excess receivers)
      else pure tt

-- With no address the division by their number panics.
unfoldable pub rebalance_slots : RedisClient → Runtime → ℕ → List Str → M (Unit {0})
unfolding slot_counts master_addrs donate for_each
rebalance_slots c rt fuel [] = stop Halt.panic
rebalance_slots c rt fuel (a ∷ rest) = do
  nodes ← Calls.cluster_nodes c a
  let counts = slot_counts [] nodes
  let target : ℤ = pos (total_hash_slots / length (a ∷ rest))
  order ← λ l. (Result.ok (rt.visit l counts), l)
  for_each (donate c fuel target counts (a ∷ rest) (master_addrs [] nodes)) order
