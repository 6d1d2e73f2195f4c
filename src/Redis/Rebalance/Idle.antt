-- ===== src/Redis/Rebalance/Idle.antt =====
-- When `RebalanceSlots` has nothing to move.
use mathlib.Core.Bool.{Bool-set}
use mathlib.Core.Logic.Or
use mathlib.Core.List.{Mem, Perm, mem-cons, not-mem-nil, mem-cons_self}
use mathlib.Core.List.Perm
use kubernetes_redis_operato.Prelude.{
  ℕ, ◌/◌, ◌<◌, ◌^◌, ◌≡◌, refl, inl, inr, true, false, List, [], ◌∷◌, length, arith, Bool-cases,
}
use kubernetes_redis_operato.Prelude.Int.{ℤ, pos, negsuc, ltb_ℤ, ◌≤ℤ◌, ◌-ℤ◌}
use kubernetes_redis_operato.Go.Text.{Str, str_eq}
use kubernetes_redis_operato.Go.Word.{int64}
use kubernetes_redis_operato.Go.Map.{Map, insert}
use kubernetes_redis_operato.Redis.Effect.{Result, Command, Log, for_each}
use kubernetes_redis_operato.Redis.Loops.{All}
use kubernetes_redis_operato.Redis.Node.{ClusterNode, is_master, slot_total, total_hash_slots}
use kubernetes_redis_operato.Redis.Client.{RedisClient, Runtime}
use kubernetes_redis_operato.Redis.Rebalance.{
  master_addrs, slot_counts, donate, excess_of, rebalance_slots,
}

-- Between 0 and the target.
abbrev pub Within : ℕ → ℤ → Type 0
Within target count = (pos 0 ≤ℤ count) × (count ≤ℤ pos target)

abbrev NoExcess : ℕ → Str × ℤ → Type 0
NoExcess target entry = ltb_ℤ (pos 0) (excess_of entry.1 (pos target)) ≡ false

excess-Within :
    (target : ℕ) (count : ℤ)
    → target < 2 ^ 63
    → Within target count
    → ltb_ℤ (pos 0) (excess_of count (pos target)) ≡ false
unfolding ◌-ℤ◌ int64
excess-Within target (pos n) fits h = ground arith
excess-Within target (negsuc n) fits h = absurd (omega arith)

insert-All :
    (P : Str × ℤ → Type 0) (k : Str) (v : ℤ) (m : Map ℤ) → P (k, v) → All P m → All P (insert k v m)
unfolding insert
insert-All P k v [] p h = (p, tt)
insert-All P k v ((j, w) ∷ m) p h = elim (Bool-cases (str_eq j k)) [
  | inl same ↦ rw same (p, h.1)
  | inr other ↦ rw other (h.0, insert-All P k v m p h.1)
]

pub slot_counts-All :
    (P : Str × ℤ → Type 0) (m : Map ℤ) (nodes : List ClusterNode)
    → All P m
    → All (λ n. is_master n ≡ true → P (n.node_id, slot_total (pos 0) n.slots)) nodes
    → All P (slot_counts m nodes)
unfolding slot_counts
slot_counts-All P m [] h hs = h
slot_counts-All P m (n ∷ nodes) h hs = elim (Bool-cases (is_master n)) [
  | inl yes_master ↦ rw yes_master (
      slot_counts-All P (insert n.node_id (slot_total (pos 0) n.slots) m) nodes
        (insert-All P _ _ m (hs.0 yes_master) h) hs.1)
  | inr no_master ↦ rw no_master (slot_counts-All P m nodes h hs.1)
]

Mem-NoExcess :
    (target : ℕ) (m : Map ℤ) (x : Str × ℤ) → All (NoExcess target) m → Mem x m → NoExcess target x
Mem-NoExcess target [] x h mem = absurd (not-mem-nil mem)
Mem-NoExcess target (y ∷ m) x h mem =
    Or.elim (Bool-set _ _) (mem-cons.0 mem) (λ e. rw e h.0) (Mem-NoExcess target m x h.1)

Within-NoExcess :
    (target : ℕ) (nodes : List ClusterNode)
    → target < 2 ^ 63
    → All (λ n. is_master n ≡ true → Within target (slot_total (pos 0) n.slots)) nodes
    → All (λ n. is_master n ≡ true → NoExcess target (n.node_id, slot_total (pos 0) n.slots)) nodes
Within-NoExcess target [] fits h = tt
Within-NoExcess target (n ∷ nodes) fits h =
    (λ m. excess-Within target _ fits (h.0 m), Within-NoExcess target nodes fits h.1)

module _ (c : RedisClient) (fuel target : ℕ) (counts : Map ℤ) (receivers : List Str)
    (addrs : Map Str) where
  donate_idle :
      (entries : Map ℤ) (l : Log)
      → ((x : Str × ℤ) → Mem x entries → NoExcess target x)
      → for_each (donate c fuel (pos target) counts receivers addrs) entries l ≡ (Result.ok tt, l)
  unfolding for_each donate
  donate_idle [] l h = refl
  donate_idle ((id, count) ∷ entries) l h =
      rw (h (id, count) mem-cons_self) (donate_idle entries l (λ x m. h x (mem-cons.1 (Or.inr m))))

-- If every master that the first node lists has at most 16384 / N slots, for N given addresses, then
-- `RebalanceSlots` only reads the nodes: no slot moves, not even from a master that is not among
-- the addresses.
pub rebalance_slots_idle :
    (c : RedisClient) (rt : Runtime) (fuel : ℕ) (a : Str) (rest : List Str)
    (nodes : List ClusterNode) (l : Log)
    → c.cluster_nodes (Command.cluster_nodes a ∷ l) ≡ inr nodes
    → ((h : Log) (m : Map ℤ) → Perm (rt.visit h m) m)
    → All
        (λ n.
          is_master n ≡ true
          → Within (total_hash_slots / length (a ∷ rest)) (slot_total (pos 0) n.slots))
        nodes
    → rebalance_slots c rt fuel (a ∷ rest) l ≡ (Result.ok tt, Command.cluster_nodes a ∷ l)
unfolding rebalance_slots
rebalance_slots_idle c rt fuel a rest nodes l answer order within =
    let target = total_hash_slots / length (a ∷ rest) in
    let counts = slot_counts [] nodes in
    let none_over : All (NoExcess target) counts =
      slot_counts-All (NoExcess target) [] nodes tt
        (Within-NoExcess target nodes (omega arith) within) in
    rw answer (
      donate_idle c fuel target counts (a ∷ rest) (master_addrs [] nodes) _ _
        (λ x m. Mem-NoExcess target counts x none_over ((Perm.mem_iff (order _ counts)).0 m)))
