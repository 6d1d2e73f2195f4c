-- ===== src/Redis/Migrate.antt =====
-- `MigrateSlot`, `migrateKeys` and `MigrateSlotsRange` of internal/redis/cluster.go. The loop over
-- batches of keys takes fuel, one unit for each batch.
pub mod Keys
pub mod Protocol
pub mod Success
pub mod Openings
pub mod Opened
use kubernetes_redis_operato.Prelude.{List, ℕ, zero, suc, Bool, [], ◌∷◌, inl, inr}
use kubernetes_redis_operato.Prelude.Int.{ℤ, pos, ◌+ℤ◌, ltb_ℤ}
use kubernetes_redis_operato.Go.Text.{Str, codes}
use kubernetes_redis_operato.Redis.Effect.{
  Error, Halt, M, pure, fail, stop, wrapping, attempt, ignoring, lift, for_each, ◌>>=◌, ◌>>◌,
}
use kubernetes_redis_operato.Redis.Node.{ClusterNode, self_node_id}
use kubernetes_redis_operato.Redis.Addr.{split_addr}
use kubernetes_redis_operato.Redis.Client.{RedisClient}
use kubernetes_redis_operato.Redis.Calls

abbrev pub migrate_timeout : ℕ
migrate_timeout = 5000

abbrev pub migrate_batch : ℕ
migrate_batch = 100

abbrev pub importing : Str
importing = codes "IMPORTING"

abbrev pub migrating : Str
migrating = codes "MIGRATING"

abbrev pub stable : Str
stable = codes "STABLE"

abbrev pub node : Str
node = codes "NODE"

-- The empty identifier stands for none.
abbrev pub known : Error → Str → M Str
known missing [] = fail missing
known missing (a ∷ s) = pure (a ∷ s)

module _ (c : RedisClient) where
  abbrev pub migrate_key : Str → Str → ℤ → Str → M (Unit {0})
  migrate_key source ip port key =
      wrapping (Error.migrate_failed key) (Calls.migrate c source ip port key 0 migrate_timeout)

  -- The rest of a round, given the loop behind it.
  pub move_batch : Str → Str → ℤ → M (Unit {0}) → List Str → M (Unit {0})
  unfolding for_each
  move_batch source ip port again [] = pure tt
  move_batch source ip port again (k ∷ ks) = for_each (migrate_key source ip port) (k ∷ ks) >> again

  unfoldable pub migrate_keys : ℕ → Str → Str → ℤ → ℤ → M (Unit {0})
  unfolding move_batch
  migrate_keys zero source ip port slot = stop Halt.out_of_fuel
  migrate_keys (suc fuel) source ip port slot = do
    keys ←
        wrapping (Error.get_keys_failed slot)
          (Calls.cluster_get_keys_in_slot c source slot migrate_batch)
    move_batch source ip port (migrate_keys fuel source ip port slot) keys

  -- `selfNodeID` of the nodes that `addr` lists, which must not be empty.
  unfoldable pub own_id : (Error → Error) → Error → Str → M Str
  unfolding self_node_id
  own_id fetching missing addr = do
    nodes ← wrapping fetching (Calls.cluster_nodes c addr)
    known missing (self_node_id nodes)

  -- Both ends are put in their transitional state; the destination is reset if the source refuses.
  unfoldable pub open_slot : Str → Str → ℤ → Str → Str → M (Unit {0})
  open_slot source dest slot source_id dest_id = do
    wrapping (Error.importing_failed slot) (Calls.cluster_set_slot c dest slot importing source_id)
    r ← attempt (Calls.cluster_set_slot c source slot migrating dest_id)
    elim r [
      | inr _ ↦ pure tt
      | inl e ↦
          ignoring (Calls.cluster_set_slot c dest slot stable [])
          >> fail (Error.migrating_failed slot e)
    ]

  -- The keys are moved; both ends are reset if that fails.
  unfoldable pub move_keys : ℕ → Str → Str → Str → ℤ → ℤ → M (Unit {0})
  unfolding migrate_keys
  move_keys fuel source dest ip port slot = do
    r ← attempt (migrate_keys fuel source ip port slot)
    elim r [
      | inr _ ↦ pure tt
      | inl e ↦ do
        ignoring (Calls.cluster_set_slot c source slot stable [])
        ignoring (Calls.cluster_set_slot c dest slot stable [])
        fail (Error.keys_failed slot e)
    ]

  -- Every node that the source lists is told the new owner; refusals are left to gossip.
  unfoldable pub commit_slot : Str → ℤ → Str → M (Unit {0})
  unfolding for_each
  commit_slot source slot dest_id = do
    nodes ← wrapping (Error.fetching_all_nodes slot) (Calls.cluster_nodes c source)
    for_each (λ (n : ClusterNode). ignoring (Calls.cluster_set_slot c n.addr slot node dest_id))
        nodes

  unfoldable pub migrate_slot : ℕ → Str → Str → ℤ → M (Unit {0})
  migrate_slot fuel source dest slot = do
    (ip, port) ← lift (split_addr dest)
    dest_id ← own_id Error.fetching_dest_nodes (Error.no_dest_id dest) dest
    source_id ← own_id Error.fetching_source_nodes (Error.no_source_id source) source
    open_slot source dest slot source_id dest_id
    move_keys fuel source dest ip port slot
    commit_slot source slot dest_id

  -- `slot <= endSlot` is tested before each of at most `rounds` slots.
  unfoldable pub migrate_slots_range : ℕ → ℕ → Str → Str → ℤ → ℤ → M (Unit {0})
  unfolding migrate_slot
  migrate_slots_range fuel zero source dest start end = stop Halt.out_of_fuel
  migrate_slots_range fuel (suc rounds) source dest start end = elim (ltb_ℤ end start) [
    | Bool.true ↦ pure tt
    | Bool.false ↦ do
      migrate_slot fuel source dest start
      migrate_slots_range fuel rounds source dest (start +ℤ pos 1) end
  ]
