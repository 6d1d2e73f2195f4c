-- ===== src/Redis/Form/Replicas.antt =====
-- How `FormCluster` attaches the replicas.
use mathlib.Core.Path.{subst}
use kubernetes_redis_operato.Prelude.{
  ℕ, zero, suc, ◌+◌, ◌%◌, ◌<◌, ◌==◌, ◌≡◌, ◌≢◌, refl, sym, ap, ◌⊎◌, inl, inr, true, false, some,
  List, [], ◌∷◌, ◌++◌, length, get_or, get_elem?, arith, Bool-cases,
}
use kubernetes_redis_operato.Go.Text.{Str}
use kubernetes_redis_operato.Redis.Effect.{Error, Result, Command, Log, emit, answer_cases}
use kubernetes_redis_operato.Redis.Loops.{All}
use kubernetes_redis_operato.Redis.Node.{ClusterNode, is_master, master_node_ids}
use kubernetes_redis_operato.Redis.Client.{RedisClient}
use kubernetes_redis_operato.Redis.Form.{replicate_from, attach_replicas}

get_elem?-get_or : (xs : List Str) (i : ℕ) → i < length xs → get_elem? xs i ≡ some (get_or xs i [])
get_elem?-get_or [] i h = elim h [ ]
get_elem?-get_or (x ∷ xs) zero h = refl
get_elem?-get_or (x ∷ xs) (suc i) h = get_elem?-get_or xs i (omega arith)

-- Replica `i` and the ones behind it, each with master `i % n` of `n`.
abbrev pub round_robin : List Str → ℕ → List Str → List Command
round_robin ids i [] = []
round_robin ids i (r ∷ rs) =
    Command.cluster_replicate r (get_or ids (i % length ids) []) ∷ round_robin ids (i + 1) rs

module _ (c : RedisClient) where
  -- Each of these requests, made in order from the log, is accepted.
  abbrev pub Accepted : List Command → Log → Type 0
  Accepted [] l = Unit
  Accepted (e ∷ es) l = (c.cluster_replicate (e ∷ l) ≡ inr tt) × Accepted es (e ∷ l)

  -- All planned requests are made and accepted, or those before one that the replica refuses: then that
  -- one is the last, and the error names it.
  abbrev pub Attaches : List Command → Log → Result (Unit {0}) × Log → Type 0
  Attaches plan l r =
      (Accepted plan l × (r ≡ (Result.ok tt, emit plan l)))
      ⊎ ((done : List Command) × (replica : Str) × (master : Str) × (rest : List Command)
          × (x : Error) × (plan ≡ done ++ Command.cluster_replicate replica master ∷ rest)
          × Accepted done l
          × (c.cluster_replicate (Command.cluster_replicate replica master ∷ emit done l) ≡ inl x)
          × (r ≡ (
            Result.err (Error.replicate_failed replica master x),
            Command.cluster_replicate replica master ∷ emit done l,
          )))

  Attaches-behind :
      (e : Command) (plan : List Command) (l : Log) (r : Result (Unit {0}) × Log)
      → c.cluster_replicate (e ∷ l) ≡ inr tt
      → Attaches plan (e ∷ l) r
      → Attaches (e ∷ plan) l r
  Attaches-behind e plan l r p (inl (all, q)) = inl ((p, all), q)
  Attaches-behind e plan l r p (inr (done, replica, master, rest, x, q, before, refused, end)) =
      inr (e ∷ done, replica, master, rest, x, ap (λ s. e ∷ s) q, (p, before), refused, end)

  module _ (ids : List Str) (some_id : 0 < length ids) where
    replicate_from-Attaches :
        (i : ℕ) (replicas : List Str) (l : Log)
        → Attaches (round_robin ids i replicas) l (replicate_from c ids i replicas l)
    unfolding replicate_from
    replicate_from-Attaches i [] l = inl (tt, refl)
    replicate_from-Attaches i (r ∷ rs) l =
        let id = get_or ids (i % length ids) [] in
        let e = Command.cluster_replicate r id in
        let found : get_elem? ids (i % length ids) ≡ some id =
          get_elem?-get_or ids _ (omega arith) in
        elim (answer_cases (c.cluster_replicate (e ∷ l))) [
          | inl (x, p) ↦
              inr ([], r, id, round_robin ids (i + 1) rs, x, refl, tt, p, rw (found, p) refl)
          | inr (_, p) ↦
              let run : replicate_from c ids i (r ∷ rs) l
                  ≡ replicate_from c ids (i + 1) rs (e ∷ l) =
                rw (found, p) refl in
              subst (λ x. Attaches (e ∷ round_robin ids (i + 1) rs) l x) (sym run)
                (Attaches-behind e _ l _ p (replicate_from-Attaches (i + 1) rs (e ∷ l)))
        ]

length-master_node_ids :
    (nodes : List ClusterNode)
    → All (λ n. is_master n ≡ true) nodes
    → length (master_node_ids nodes) ≡ length nodes
unfolding master_node_ids
length-master_node_ids [] h = refl
length-master_node_ids (n ∷ nodes) h = rw h.0 (ap suc (length-master_node_ids nodes h.1))

module _ (c : RedisClient) (first : Str) where
  -- Once the first node has listed its nodes, the call fails without a request if they are not as many
  -- masters as there are. If they are, the replicas are attached to the listed masters in turn: each
  -- request is accepted and the call succeeds, or the first one that a replica refuses is the last one
  -- made, and the call fails with that refusal.
  pub attach_replicas_lem :
      (count : ℕ) (replicas : List Str) (nodes : List ClusterNode) (l : Log)
      → c.cluster_nodes (Command.cluster_nodes first ∷ l) ≡ inr nodes
      → 0 < count
      → ((length (master_node_ids nodes) ≢ count)
          × (attach_replicas c first count replicas l ≡ (
            Result.err (Error.wrong_master_count count (length (master_node_ids nodes))),
            Command.cluster_nodes first ∷ l,
          )))
        ⊎ ((length (master_node_ids nodes) ≡ count)
            × Attaches c
                (round_robin (master_node_ids nodes) 0 replicas)
                (Command.cluster_nodes first ∷ l)
                (attach_replicas c first count replicas l))
  unfolding attach_replicas
  attach_replicas_lem count replicas nodes l answer pos_count =
      elim (Bool-cases (length (master_node_ids nodes) == count)) [
        | inl same ↦
            rw (answer, same)
              (inr (
                ground arith,
                replicate_from-Attaches c (master_node_ids nodes) (ground arith) 0 replicas _,
              ))
        | inr other ↦ rw (answer, other) (inl (ground arith, refl))
      ]

  -- While the first node lists every node as a master, also those that are to become replicas, no
  -- replica is attached: the call fails with the count of all nodes.
  pub attach_replicas_refused :
      (count : ℕ) (replicas : List Str) (nodes : List ClusterNode) (l : Log)
      → c.cluster_nodes (Command.cluster_nodes first ∷ l) ≡ inr nodes
      → All (λ n. is_master n ≡ true) nodes
      → length nodes ≡ count + length replicas
      → 0 < length replicas
      → attach_replicas c first count replicas l ≡ (
        Result.err (Error.wrong_master_count count (length nodes)),
        Command.cluster_nodes first ∷ l,
      )
  unfolding attach_replicas
  attach_replicas_refused count replicas nodes l answer masters total some_replica =
      let e = length-master_node_ids nodes masters in
      let differ : (length nodes == count) ≡ false = ground arith in rw (answer, e, differ)
