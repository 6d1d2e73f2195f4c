-- ===== src/Redis/Migrate/Opened.antt =====
-- Which slots `MigrateSlot` sets the state of, and how often it opens one.
use kubernetes_redis_operato.Prelude.{ℕ, ◌≡◌, refl, arith, false, List, [], ◌∷◌, ◌⊎◌, inl, inr}
use kubernetes_redis_operato.Prelude.Int.{ℤ}
use kubernetes_redis_operato.Go.Text.{Str, str_eq}
use kubernetes_redis_operato.Redis.Effect.{
  Error, Result, Command, Log, M, pure, fail, attempt, ignoring, for_each, ◌>>◌,
}
use kubernetes_redis_operato.Redis.Loops.{All, Issues, Issues-pure, Issues-for_each, caught-log}
use kubernetes_redis_operato.Redis.Node.{ClusterNode, self_node_id}
use kubernetes_redis_operato.Redis.Addr.{split_addr}
use kubernetes_redis_operato.Redis.Client.{RedisClient}
use kubernetes_redis_operato.Redis.Calls
use kubernetes_redis_operato.Redis.Migrate.{
  known, migrate_keys, own_id, open_slot, move_keys, commit_slot, migrate_slot, importing,
  migrating, stable, node,
}
use kubernetes_redis_operato.Redis.Migrate.Keys.{IsMove, asks, sends, migrate_keys-Issues}
use kubernetes_redis_operato.Redis.Calls
use kubernetes_redis_operato.Redis.Chain.{
  Chain, bind, silent, wrapped, attempted, ignored, lifted, asked,
}
use kubernetes_redis_operato.Redis.Migrate.Openings.{
  openings, Still, LimitedAt, Limited, held, step,
}

module _ (Q : ℤ → Type 0) (c : RedisClient) (slot : ℤ) (q : Q slot) where
  known-Issues : (missing : Error) (id : Str) → Issues (Still Q) (known missing id)
  known-Issues missing [] = λ l. ([], refl, tt)
  known-Issues missing (a ∷ s) = Issues-pure (Still Q) (a ∷ s)

  abbrev own : (Error → Error) → Error → Str → Chain (Still Q) Str
  own fetching missing addr =
      bind (wrapped fetching (asked (Command.cluster_nodes addr) tt c.cluster_nodes))
        (λ nodes. (known missing (self_node_id nodes), known-Issues missing (self_node_id nodes)))

  -- Asking a node to set the state of the slot, but not to `MIGRATING`.
  abbrev set_slot :
      (addr kind id : Str) → str_eq kind migrating ≡ false → Chain (Still Q) (Unit {0})
  set_slot addr kind id other =
      asked (Command.cluster_set_slot addr slot kind id) (q, other) c.cluster_set_slot

  opened-LimitedAt :
      (source dest_id : Str) (l : Log)
      → LimitedAt Q 1 (attempt (Calls.cluster_set_slot c source slot migrating dest_id) l) l
  unfolding openings str_eq
  opened-LimitedAt source dest_id l = (
    Command.cluster_set_slot source slot migrating dest_id ∷ [],
    caught-log (Calls.cluster_set_slot c source slot migrating dest_id l),
    (q, tt),
    omega arith,
  )

  abbrev opened : Str → Str → Limited Q 1 (Error ⊎ (Unit {0}))
  opened source dest_id = (
    attempt (Calls.cluster_set_slot c source slot migrating dest_id),
    opened-LimitedAt source dest_id,
  )

  IsMove-Still :
      (source ip : Str) (port : ℤ) (es : List Command)
      → All (IsMove source ip port slot) es
      → All (Still Q) es
  IsMove-Still source ip port [] h = tt
  IsMove-Still source ip port (_ ∷ es) (asks, h) = (tt, IsMove-Still source ip port es h)
  IsMove-Still source ip port (_ ∷ es) (sends key, h) = (tt, IsMove-Still source ip port es h)

  keys_moved :
      (fuel : ℕ) (source ip : Str) (port : ℤ)
      → Issues (Still Q) (migrate_keys c fuel source ip port slot)
  keys_moved fuel source ip port l =
      let (es, t, p) = migrate_keys-Issues c source ip port slot fuel l in
      (es, t, IsMove-Still source ip port es p)

  -- What follows the source's answer.
  abbrev answered_open : Str → Error ⊎ (Unit {0}) → M (Unit {0})
  answered_open dest (inr u) = pure tt
  answered_open dest (inl e) =
      ignoring (Calls.cluster_set_slot c dest slot stable [])
      >> fail (Error.migrating_failed slot e)

  refused-Issues : (dest : Str) (r : Error ⊎ (Unit {0})) → Issues (Still Q) (answered_open dest r)
  unfolding str_eq
  refused-Issues dest (inr u) = Issues-pure (Still Q) tt
  refused-Issues dest (inl e) =
      (bind (ignored (set_slot dest stable [] refl))
        (λ _. silent (λ _. Result.err (Error.migrating_failed slot e)))).1

  open_slot-LimitedAt :
      (source dest source_id dest_id : Str) (l : Log)
      → LimitedAt Q 1 (open_slot c source dest slot source_id dest_id l) l
  unfolding open_slot str_eq
  open_slot-LimitedAt source dest source_id dest_id =
      (step {B = Unit {0}} {j = 0} {k = 1}
        (held (wrapped (Error.importing_failed slot) (set_slot dest importing source_id refl)))
        (λ _.
          step {j = 1} {k = 0} (opened source dest_id)
            (λ r. held (answered_open dest r, refused-Issues dest r)))).1

  stuck-Issues :
      (source dest : Str) (r : Error ⊎ (Unit {0}))
      → Issues (Still Q) (elim r as (λ _. M (Unit {0})) [
        | inr _ ↦ pure tt
        | inl e ↦
            ignoring (Calls.cluster_set_slot c source slot stable [])
            >> (ignoring (Calls.cluster_set_slot c dest slot stable [])
                >> fail (Error.keys_failed slot e))
      ])
  unfolding str_eq
  stuck-Issues source dest (inr u) = Issues-pure (Still Q) tt
  stuck-Issues source dest (inl e) =
      (bind (ignored (set_slot source stable [] refl)) (λ _.
        bind (ignored (set_slot dest stable [] refl))
          (λ _. silent (λ _. Result.err (Error.keys_failed slot e))))).1

  move_keys-Issues :
      (fuel : ℕ) (source dest ip : Str) (port : ℤ)
      → Issues (Still Q) (move_keys c fuel source dest ip port slot)
  unfolding move_keys
  move_keys-Issues fuel source dest ip port =
      (bind (attempted (migrate_keys c fuel source ip port slot, keys_moved fuel source ip port))
        (λ r. (_, stuck-Issues source dest r))).1

  commit_slot-Issues : (source dest_id : Str) → Issues (Still Q) (commit_slot c source slot dest_id)
  unfolding commit_slot str_eq
  commit_slot-Issues source dest_id =
      (bind
        (wrapped (Error.fetching_all_nodes slot)
          (asked (Command.cluster_nodes source) tt c.cluster_nodes))
        (λ nodes. (
          for_each
              (λ (n : ClusterNode). ignoring (Calls.cluster_set_slot c n.addr slot node dest_id))
              nodes,
          Issues-for_each (Still Q) _ nodes (λ n. (ignored (set_slot n.addr node dest_id refl)).1),
        ))).1

  -- Moving a slot opens it at most once, and sets the state of no other slot.
  pub migrate_slot-LimitedAt :
      (fuel : ℕ) (source dest : Str) (l : Log)
      → LimitedAt Q 1 (migrate_slot c fuel source dest slot l) l
  unfolding migrate_slot own_id
  migrate_slot-LimitedAt fuel source dest =
      (step (held (lifted (split_addr dest))) (λ (ip, port).
        step (held (own Error.fetching_dest_nodes (Error.no_dest_id dest) dest)) (λ dest_id.
          step (held (own Error.fetching_source_nodes (Error.no_source_id source) source))
            (λ source_id.
              step {j = 1} {k = 0}
                (
                  open_slot c source dest slot source_id dest_id,
                  open_slot-LimitedAt source dest source_id dest_id,
                )
                (λ _.
                  step
                    (held (
                      move_keys c fuel source dest ip port slot,
                      move_keys-Issues fuel source dest ip port,
                    ))
                    (λ _.
                      held (
                        commit_slot c source slot dest_id,
                        commit_slot-Issues source dest_id,
                      ))))))).1
