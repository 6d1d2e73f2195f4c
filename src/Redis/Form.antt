-- ===== src/Redis/Form.antt =====
-- `FormCluster` of internal/redis/cluster.go.
pub mod Replicas
pub mod Quiet
pub mod Covers
use kubernetes_redis_operato.Prelude.{
  ℕ, zero, ◌+◌, ◌*◌, ◌%◌, ◌==◌, ltb, Bool, true, false, ◌||◌, List, [], ◌∷◌, none, some, length,
  get_elem?, Option, if◌then◌else◌,
}
use kubernetes_redis_operato.Prelude.Int.{ℤ, pos}
use kubernetes_redis_operato.Go.Text.{Str}
use kubernetes_redis_operato.Redis.Effect.{
  Error, Halt, M, pure, fail, stop, wrapping, lift, for_each, ◌>>=◌, ◌>>◌,
}
use kubernetes_redis_operato.Redis.Node.{master_node_ids}
use kubernetes_redis_operato.Redis.Addr.{split_addr}
use kubernetes_redis_operato.Redis.Slots.{assign_slots_evenly}
use kubernetes_redis_operato.Redis.Wait.{second, wait_for_known_nodes, wait_for_cluster_ready}
use kubernetes_redis_operato.Redis.Client.{RedisClient, Runtime}
use kubernetes_redis_operato.Redis.Calls

abbrev is_nil : List Str → Bool
is_nil [] = true
is_nil (_ ∷ _) = false

abbrev is_zero : ℤ → Bool
is_zero (pos zero) = true
is_zero _ = false

module _ (c : RedisClient) where
  meet_peer : Str → Str → M (Unit {0})
  unfolding split_addr
  meet_peer addr peer = do
    (ip, port) ← wrapping (Error.invalid_master_address peer) (lift (split_addr peer))
    wrapping (Error.meet_failed addr peer) (Calls.cluster_meet c addr ip port)

  -- Node `i` meets every node `j` but itself.
  meet_peers : Str → ℕ → ℕ → List Str → M (Unit {0})
  unfolding meet_peer
  meet_peers addr i j [] = pure tt
  meet_peers addr i j (peer ∷ peers) =
      (if i == j then pure tt else meet_peer addr peer) >> meet_peers addr i (j + 1) peers

  meet_rows : List Str → ℕ → List Str → M (Unit {0})
  unfolding meet_peers
  meet_rows masters i [] = pure tt
  meet_rows masters i (addr ∷ addrs) =
      meet_peers addr i 0 masters >> meet_rows masters (i + 1) addrs

  -- Each master meets each other one.
  unfoldable pub meet_masters : List Str → M (Unit {0})
  unfolding meet_rows
  meet_masters masters = meet_rows masters 0 masters

  meet_replica : Str → Str → M (Unit {0})
  unfolding split_addr
  meet_replica first replica = do
    (ip, port) ← wrapping (Error.invalid_replica_address replica) (lift (split_addr replica))
    wrapping (Error.meet_replica_failed replica) (Calls.cluster_meet c first ip port)

  -- An index out of range would panic.
  abbrev pub follow : Str → Option Str → M (Unit {0})
  follow replica none = stop Halt.panic
  follow replica (some id) =
      wrapping (Error.replicate_failed replica id) (Calls.cluster_replicate c replica id)

  -- Replica `i` follows master `i % len(masterIDs)`.
  unfoldable pub replicate_from : List Str → ℕ → List Str → M (Unit {0})
  replicate_from ids i [] = pure tt
  replicate_from ids i (replica ∷ replicas) =
      follow replica (get_elem? ids (i % length ids)) >> replicate_from ids (i + 1) replicas

  -- The masters that the first node lists must be as many as were asked for.
  unfoldable pub attach_replicas : Str → ℕ → List Str → M (Unit {0})
  unfolding master_node_ids replicate_from
  attach_replicas first count replicas = do
    nodes ← wrapping Error.fetching_nodes (Calls.cluster_nodes c first)
    let ids = master_node_ids nodes
    if length ids == count
        then replicate_from ids 0 replicas
        else fail (Error.wrong_master_count count (length ids))

module _ (c : RedisClient) (rt : Runtime) (fuel : ℕ) where
  -- Steps 1 and 2: the masters meet and share the slots.
  unfoldable pub form_masters : Str → List Str → M (Unit {0})
  unfolding meet_masters wait_for_known_nodes assign_slots_evenly wait_for_cluster_ready
  form_masters first masters = do
    meet_masters c masters
    wrapping Error.waiting_formation
        (wait_for_known_nodes rt c fuel first (length masters) (30 * second))
    wrapping Error.assigning_slots (assign_slots_evenly c masters)
    wrapping Error.waiting_ready (wait_for_cluster_ready rt c fuel first (60 * second))

  -- Step 3.
  unfoldable pub form_replicas : Str → List Str → List Str → M (Unit {0})
  unfolding for_each meet_replica wait_for_known_nodes attach_replicas
  form_replicas first masters replicas = do
    for_each (meet_replica c first) replicas
    wrapping Error.waiting_replicas
        (wait_for_known_nodes rt c fuel first (length masters + length replicas) (60 * second))
    attach_replicas c first (length masters) replicas

  unfoldable pub form_cluster : List Str → List Str → ℤ → M (Unit {0})
  unfolding form_masters form_replicas
  form_cluster [] replicas per_master = fail (Error.few_masters 0)
  form_cluster (m ∷ ms) replicas per_master =
      let masters = m ∷ ms in
      if ltb (length masters) 3
      then fail (Error.few_masters (length masters))
      else (form_masters m masters
          >> (if is_nil replicas || is_zero per_master
              then pure tt
              else form_replicas m masters replicas))
