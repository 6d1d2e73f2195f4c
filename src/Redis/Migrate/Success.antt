-- ===== src/Redis/Migrate/Success.antt =====
-- The order of the commands of a run of `MigrateSlot` that succeeds.
use kubernetes_redis_operato.Redis.Migrate.Protocol.{told, tell_all}
use mathlib.Core.Path.{subst, sym}
use kubernetes_redis_operato.Prelude.{◌∙◌, ap, ℕ, ◌≡◌, ◌≢◌, refl, inl, inr, List, [], ◌∷◌, map}
use kubernetes_redis_operato.Prelude.Int.{ℤ}
use kubernetes_redis_operato.Go.Text.{Str}
use kubernetes_redis_operato.Redis.Effect.{Error, Result, Command, Log, emit, answer_cases}
use kubernetes_redis_operato.Redis.Loops.{All, and_then-eq-ok, ignoring-call}
use kubernetes_redis_operato.Redis.Node.{ClusterNode, self_node_id}
use kubernetes_redis_operato.Redis.Addr.{split_addr}
use kubernetes_redis_operato.Redis.Client.{RedisClient}
use kubernetes_redis_operato.Redis.Migrate.{
  known, migrate_keys, own_id, open_slot, move_keys, commit_slot, migrate_slot, importing,
  migrating, stable,
}
use kubernetes_redis_operato.Redis.Migrate.Keys.{
  IsMove, Drained, migrate_keys-Issues, migrate_keys-Drained,
}

-- A run of `MigrateSlot` from the log `l` to the log `l'` that moved the slot.
pub record IsMigration (c : RedisClient) (source dest : Str) (slot : ℤ) (l l' : Log) : Type 0 where
  pub ip : Str
  pub port : ℤ
  pub address : split_addr dest ≡ inr (ip, port)
  -- the identifiers that the two ends give themselves
  pub dest_nodes : List ClusterNode
  pub dest_answer : c.cluster_nodes (Command.cluster_nodes dest ∷ l) ≡ inr dest_nodes
  pub dest_id : Str
  pub dest_self : self_node_id dest_nodes ≡ dest_id
  pub dest_known : dest_id ≢ []
  pub source_nodes : List ClusterNode
  pub source_answer :
      c.cluster_nodes (Command.cluster_nodes source ∷ Command.cluster_nodes dest ∷ l)
      ≡ inr source_nodes
  pub source_id : Str
  pub source_self : self_node_id source_nodes ≡ source_id
  pub source_known : source_id ≢ []
  -- IMPORTING is accepted by the destination, and then MIGRATING by the source
  pub opened : Log
  pub imports :
      c.cluster_set_slot (
        Command.cluster_set_slot dest slot importing source_id
        ∷ Command.cluster_nodes source
        ∷ Command.cluster_nodes dest
        ∷ l)
      ≡ inr tt
  pub migrates : c.cluster_set_slot opened ≡ inr tt
  pub opens :
      opened
      ≡ Command.cluster_set_slot source slot migrating dest_id
        ∷ Command.cluster_set_slot dest slot importing source_id
        ∷ Command.cluster_nodes source
        ∷ Command.cluster_nodes dest
        ∷ l
  -- the keys move, until the source has none
  pub moves : List Command
  pub only_moves : All (IsMove source ip port slot) moves
  pub drained : Drained source ip port slot c (emit moves opened)
  -- every node that the source then lists is told
  pub nodes : List ClusterNode
  pub nodes_answer : c.cluster_nodes (Command.cluster_nodes source ∷ emit moves opened) ≡ inr nodes
  pub committed :
      l' ≡ emit (map (told slot dest_id) nodes) (Command.cluster_nodes source ∷ emit moves opened)

module _ (c : RedisClient) (source dest : Str) (slot : ℤ) where
  -- What a successful `own_id` read.
  own_id_ok :
      (f : Error → Error) (missing : Error) (addr : Str) (l : Log) (id : Str) (l' : Log)
      → own_id c f missing addr l ≡ (Result.ok id, l')
      → (nodes : List ClusterNode) × (c.cluster_nodes (Command.cluster_nodes addr ∷ l) ≡ inr nodes)
        × (self_node_id nodes ≡ id)
        × (id ≢ [])
        × (l' ≡ Command.cluster_nodes addr ∷ l)
  unfolding own_id
  own_id_ok f missing addr l id l' h =
      elim (answer_cases (c.cluster_nodes (Command.cluster_nodes addr ∷ l))) [
        | inl (x, p) ↦ cc (rw p at h)
        | inr (nodes, p) ↦
            let (a, b, d) =
              known_ok missing (self_node_id nodes) (Command.cluster_nodes addr ∷ l) id l'
                (rw p at h) in
            (nodes, p, a, b, d)
      ]
    where
      known_ok :
          (missing : Error) (id : Str) (l : Log) (id' : Str) (l' : Log)
          → known missing id l ≡ (Result.ok id', l')
          → (id ≡ id') × (id' ≢ []) × (l' ≡ l)
      known_ok missing [] l id' l' h = cc
      known_ok missing (a ∷ s) l id' l' h = (cc, (λ e. cc), cc)

  open_slot_ok :
      (source_id dest_id : Str) (l l' : Log)
      → open_slot c source dest slot source_id dest_id l ≡ (Result.ok tt, l')
      → let i = Command.cluster_set_slot dest slot importing source_id in
        let m = Command.cluster_set_slot source slot migrating dest_id in
        (c.cluster_set_slot (i ∷ l) ≡ inr tt)
        × (c.cluster_set_slot (m ∷ i ∷ l) ≡ inr tt)
        × (l' ≡ m ∷ i ∷ l)
  unfolding open_slot
  open_slot_ok source_id dest_id l l' h =
      let i = Command.cluster_set_slot dest slot importing source_id in
      let m = Command.cluster_set_slot source slot migrating dest_id in
      elim (answer_cases (c.cluster_set_slot (i ∷ l))) [
        | inl (x, p) ↦ cc (rw p at h)
        | inr (_, p) ↦ elim (answer_cases (c.cluster_set_slot (m ∷ i ∷ l))) [
          | inl (x, q) ↦ cc (rw (p, q, ignoring-call _ c.cluster_set_slot (m ∷ i ∷ l)) at h)
          | inr (_, q) ↦ (p, q, cc (rw (p, q) at h))
        ]
      ]

  move_keys_ok :
      (fuel : ℕ) (ip : Str) (port : ℤ) (l l' : Log)
      → move_keys c fuel source dest ip port slot l ≡ (Result.ok tt, l')
      → migrate_keys c fuel source ip port slot l ≡ (Result.ok tt, l')
  unfolding move_keys
  move_keys_ok fuel ip port l l' h = go (migrate_keys c fuel source ip port slot l) refl
    where
      go :
          (r : Result (Unit {0}) × Log)
          → migrate_keys c fuel source ip port slot l ≡ r
          → migrate_keys c fuel source ip port slot l ≡ (Result.ok tt, l')
      go (Result.ok a, l1) e = rw e (rw e at h)
      go (Result.halt x, l1) e = cc (rw e at h)
      go (Result.err x, l1) e = cc (
          rw
            (
              e,
              ignoring-call _ c.cluster_set_slot l1,
              ignoring-call _ c.cluster_set_slot
                  (Command.cluster_set_slot source slot stable [] ∷ l1),
            )
            at h)

  commit_slot_ok :
      (dest_id : Str) (l : Log)
      → (commit_slot c source slot dest_id l).0 ≡ Result.ok tt
      → (nodes : List ClusterNode) × (c.cluster_nodes (Command.cluster_nodes source ∷ l)
          ≡ inr nodes)
        × ((commit_slot c source slot dest_id l).1
            ≡ emit (map (told slot dest_id) nodes) (Command.cluster_nodes source ∷ l))
  unfolding commit_slot
  commit_slot_ok dest_id l h =
      elim (answer_cases (c.cluster_nodes (Command.cluster_nodes source ∷ l))) [
        | inl (x, p) ↦ cc (rw p at h)
        | inr (nodes, p) ↦ (nodes, p, rw (p, tell_all c source dest slot dest_id nodes _))
      ]

  run_from :
      (fuel : ℕ) (ip : Str) (port : ℤ) (dest_id source_id : Str) (l l1 l2 l3 l4 : Log)
      → split_addr dest ≡ inr (ip, port)
      → own_id c Error.fetching_dest_nodes (Error.no_dest_id dest) dest l ≡ (Result.ok dest_id, l1)
      → own_id c Error.fetching_source_nodes (Error.no_source_id source) source l1
        ≡ (Result.ok source_id, l2)
      → open_slot c source dest slot source_id dest_id l2 ≡ (Result.ok tt, l3)
      → move_keys c fuel source dest ip port slot l3 ≡ (Result.ok tt, l4)
      → migrate_slot c fuel source dest slot l ≡ commit_slot c source slot dest_id l4
  unfolding migrate_slot
  run_from fuel ip port dest_id source_id l l1 l2 l3 l4 p e1 e2 e3 e4 = rw (p, e1, e2, e3, e4)

  assemble :
      (fuel : ℕ) (ip : Str) (port : ℤ) (dest_id source_id : Str) (l l1 l2 l3 l4 : Log)
      → split_addr dest ≡ inr (ip, port)
      → own_id c Error.fetching_dest_nodes (Error.no_dest_id dest) dest l ≡ (Result.ok dest_id, l1)
      → own_id c Error.fetching_source_nodes (Error.no_source_id source) source l1
        ≡ (Result.ok source_id, l2)
      → open_slot c source dest slot source_id dest_id l2 ≡ (Result.ok tt, l3)
      → move_keys c fuel source dest ip port slot l3 ≡ (Result.ok tt, l4)
      → (commit_slot c source slot dest_id l4).0 ≡ Result.ok tt
      → IsMigration c source dest slot l (commit_slot c source slot dest_id l4).1
  assemble fuel ip port dest_id source_id l l1 l2 l3 l4 p e1 e2 e3 e4 h =
      let (dest_nodes, a1, s1, k1, q1) = own_id_ok _ _ dest l dest_id l1 e1 in
      let (source_nodes, a2, s2, k2, q2) = own_id_ok _ _ source l1 source_id l2 e2 in
      let (i, m, q3) = open_slot_ok source_id dest_id l2 l3 e3 in
      let e = move_keys_ok fuel ip port l3 l4 e4 in
      let (moves, q4, only) = migrate_keys-Issues c source ip port slot fuel l3 in
      let dr = migrate_keys-Drained c source ip port slot fuel l3 (ap (λ r. r.0) e) in
      let (nodes, a5, q5) = commit_slot_ok dest_id l4 h in
      let l4_eq : l4 ≡ emit moves l3 = sym (ap (λ r. r.1) e) ∙ q4 in
      record {
        ip = ip;
        port = port;
        address = p;
        dest_nodes = dest_nodes;
        dest_answer = a1;
        dest_id = dest_id;
        dest_self = s1;
        dest_known = k1;
        source_nodes = source_nodes;
        source_answer = cc;
        source_id = source_id;
        source_self = s2;
        source_known = k2;
        opened = l3;
        imports = cc;
        migrates = cc;
        opens = cc;
        moves = moves;
        only_moves = only;
        drained = subst (λ t. Drained source ip port slot c t) q4 dr;
        nodes = nodes;
        nodes_answer = cc;
        committed = cc;
      }

  -- A run that succeeds has kept the order: IMPORTING at the destination, MIGRATING at the source,
  -- keys until the source has none, and then the new owner to every node that the source lists.
  pub migrate_slot_ok :
      (fuel : ℕ) (l : Log)
      → (migrate_slot c fuel source dest slot l).0 ≡ Result.ok tt
      → IsMigration c source dest slot l (migrate_slot c fuel source dest slot l).1
  unfolding migrate_slot
  migrate_slot_ok fuel l h = elim (answer_cases (split_addr dest)) [
    | inl (x, p) ↦ cc (rw (p, migrate_slot) at h)
    | inr ((ip, port), p) ↦
        let (dest_id, l1, e1, h1) =
          and_then-eq-ok (own_id c Error.fetching_dest_nodes (Error.no_dest_id dest) dest l) _
            (rw (p, migrate_slot) at h) in
        let (source_id, l2, e2, h2) =
          and_then-eq-ok
            (own_id c Error.fetching_source_nodes (Error.no_source_id source) source l1) _ h1 in
        let (_, l3, e3, h3) =
          and_then-eq-ok (open_slot c source dest slot source_id dest_id l2) _ h2 in
        let (_, l4, e4, h4) = and_then-eq-ok (move_keys c fuel source dest ip port slot l3) _ h3 in
        subst (λ r. IsMigration c source dest slot l r.1)
          (sym (run_from fuel ip port dest_id source_id l l1 l2 l3 l4 p e1 e2 e3 e4))
          (assemble fuel ip port dest_id source_id l l1 l2 l3 l4 p e1 e2 e3 e4 h4)
  ]
