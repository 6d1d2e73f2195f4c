-- ===== src/Redis/Migrate/Protocol.antt =====
-- What `MigrateSlot` takes back when it fails.
use kubernetes_redis_operato.Prelude.{ℕ, ◌≡◌, refl, inl, inr, List, [], ◌∷◌, map}
use kubernetes_redis_operato.Prelude.Int.{ℤ}
use kubernetes_redis_operato.Go.Text.{Str}
use kubernetes_redis_operato.Redis.Effect.{
  Error, Result, Command, Log, emit, for_each, answer_cases, ignoring, lift,
}
use kubernetes_redis_operato.Redis.Loops.{
  FailsWith-err, FailsWith-ok, FailsWith-halt, FailsWith, FailsWith-and_then, ignoring-call,
}
use kubernetes_redis_operato.Redis.Node.{ClusterNode, self_node_id}
use kubernetes_redis_operato.Redis.Addr.{split_addr, split_addr_fails}
use kubernetes_redis_operato.Redis.Calls
use kubernetes_redis_operato.Redis.Client.{RedisClient}
use kubernetes_redis_operato.Redis.Migrate.{
  known, migrate_keys, own_id, open_slot, move_keys, commit_slot, migrate_slot, importing,
  migrating, stable, node,
}

-- The message that tells a node the new owner of a slot.
abbrev pub told : ℤ → Str → ClusterNode → Command
told slot dest_id n = Command.cluster_set_slot n.addr slot node dest_id

module _ (c : RedisClient) (source dest : Str) (slot : ℤ) where
  -- What is taken back, by the kind of failure. After a refused MIGRATING the destination is made
  -- stable again; after a failed move of keys the source is, and then the destination.
  abbrev pub RolledBack : Error → Log → Type 0
  RolledBack (Error.migrating_failed s e) l =
      (before : Log) × (l ≡ Command.cluster_set_slot dest slot stable [] ∷ before)
  RolledBack (Error.keys_failed s e) l =
      (before : Log) × (l
        ≡ Command.cluster_set_slot dest slot stable []
          ∷ Command.cluster_set_slot source slot stable []
          ∷ before)
  RolledBack _ l = Unit {0}

  open_slot-RolledBack :
      (source_id dest_id : Str) (l : Log)
      → FailsWith RolledBack (open_slot c source dest slot source_id dest_id l)
  unfolding open_slot
  open_slot-RolledBack source_id dest_id l =
      let i = Command.cluster_set_slot dest slot importing source_id in
      let m = Command.cluster_set_slot source slot migrating dest_id in
      elim (answer_cases (c.cluster_set_slot (i ∷ l))) [
        | inl (x, p) ↦ rw p (FailsWith-err RolledBack _ _ tt)
        | inr (_, p) ↦ elim (answer_cases (c.cluster_set_slot (m ∷ i ∷ l))) [
          | inl (x, q) ↦
              rw (p, q, ignoring-call _ c.cluster_set_slot (m ∷ i ∷ l))
                (FailsWith-err RolledBack _ _ (m ∷ i ∷ l, refl))
          | inr (_, q) ↦ rw (p, q) (FailsWith-ok RolledBack _ _)
        ]
      ]

  move_keys-RolledBack :
      (fuel : ℕ) (ip : Str) (port : ℤ) (l : Log)
      → FailsWith RolledBack (move_keys c fuel source dest ip port slot l)
  unfolding move_keys
  move_keys-RolledBack fuel ip port l = go (migrate_keys c fuel source ip port slot l) refl
    where
      go :
          (r : Result (Unit {0}) × Log)
          → migrate_keys c fuel source ip port slot l ≡ r
          → FailsWith RolledBack (move_keys c fuel source dest ip port slot l)
      go (Result.ok a, l') e = rw e (FailsWith-ok RolledBack _ _)
      go (Result.halt h, l') e = rw e (FailsWith-halt RolledBack _ _)
      go (Result.err x, l') e =
          rw
            (
              e,
              ignoring-call _ c.cluster_set_slot l',
              ignoring-call _ c.cluster_set_slot
                  (Command.cluster_set_slot source slot stable [] ∷ l'),
            )
            (FailsWith-err RolledBack _ _ (l', refl))

  pub tell_all :
      (dest_id : Str) (nodes : List ClusterNode) (l : Log)
      → for_each
          (λ (n : ClusterNode). ignoring (Calls.cluster_set_slot c n.addr slot node dest_id))
          nodes
          l
        ≡ (Result.ok tt, emit (map (told slot dest_id) nodes) l)
  unfolding for_each
  tell_all dest_id [] l = refl
  tell_all dest_id (n ∷ nodes) l =
      rw (ignoring-call (told slot dest_id n) c.cluster_set_slot l)
        (tell_all dest_id nodes (told slot dest_id n ∷ l))

  commit_slot-RolledBack :
      (dest_id : Str) (l : Log) → FailsWith RolledBack (commit_slot c source slot dest_id l)
  unfolding commit_slot
  commit_slot-RolledBack dest_id l =
      elim (answer_cases (c.cluster_nodes (Command.cluster_nodes source ∷ l))) [
        | inl (x, p) ↦ rw p (FailsWith-err RolledBack _ _ tt)
        | inr (nodes, p) ↦ rw (p, tell_all dest_id nodes _) (FailsWith-ok RolledBack _ _)
      ]

  known-RolledBack :
      (missing : Error) (id : Str) (l : Log)
      → RolledBack missing l
      → FailsWith RolledBack (known missing id l)
  known-RolledBack missing [] l h = FailsWith-err RolledBack missing l h
  known-RolledBack missing (a ∷ s) l h = FailsWith-ok RolledBack _ _

  own_id-RolledBack :
      (f : Error → Error) (missing : Error) (addr : Str) (l : Log)
      → ((x : Error) (l' : Log) → RolledBack (f x) l')
      → ((l' : Log) → RolledBack missing l')
      → FailsWith RolledBack (own_id c f missing addr l)
  unfolding own_id
  own_id-RolledBack f missing addr l hf hm =
      elim (answer_cases (c.cluster_nodes (Command.cluster_nodes addr ∷ l))) [
        | inl (x, p) ↦ rw p (FailsWith-err RolledBack _ _ (hf x _))
        | inr (nodes, p) ↦ rw p (known-RolledBack missing (self_node_id nodes) _ (hm _))
      ]

  split_addr-RolledBack : (l : Log) → FailsWith RolledBack (lift (split_addr dest) l)
  split_addr-RolledBack l = elim (answer_cases (split_addr dest)) [
    | inl (x, p) ↦ rw p (
        FailsWith-err RolledBack x l
          (elim (split_addr_fails dest x p) [ inl e ↦ rw e tt | inr e ↦ rw e tt ]))
    | inr (a, p) ↦ rw p (FailsWith-ok RolledBack a l)
  ]

  -- `MigrateSlot` takes back what it began when the source refuses to migrate the slot and when a
  -- key cannot be moved.
  pub migrate_slot_rolls_back :
      (fuel : ℕ) (l : Log) → FailsWith RolledBack (migrate_slot c fuel source dest slot l)
  unfolding migrate_slot
  migrate_slot_rolls_back fuel l =
      FailsWith-and_then RolledBack (lift (split_addr dest) l) _ (split_addr-RolledBack l)
        λ (ip, port) l1.
          FailsWith-and_then RolledBack
            (own_id c Error.fetching_dest_nodes (Error.no_dest_id dest) dest l1) _
            (own_id-RolledBack _ _ dest l1 (λ x l'. tt) (λ l'. tt))
            λ dest_id l2.
              FailsWith-and_then RolledBack
                (own_id c Error.fetching_source_nodes (Error.no_source_id source) source l2) _
                (own_id-RolledBack _ _ source l2 (λ x l'. tt) (λ l'. tt))
                λ source_id l3.
                  FailsWith-and_then RolledBack (open_slot c source dest slot source_id dest_id l3)
                    _ (open_slot-RolledBack source_id dest_id l3)
                    λ _ l4.
                      FailsWith-and_then RolledBack (move_keys c fuel source dest ip port slot l4) _
                        (move_keys-RolledBack fuel ip port l4)
                        λ _ l5. commit_slot-RolledBack dest_id l5
