-- ===== src/Redis/Form/Quiet.antt =====
-- The parts of `FormCluster` that assign no slots.
use kubernetes_redis_operato.Prelude.{
  ℕ, zero, suc, ◌+◌, ◌*◌, ◌==◌, ◌%◌, ltb, ◌≡◌, refl, ap, Option, none, some, List, [], ◌∷◌, ◌++◌,
  inl, inr, length, get_elem?, if◌then◌else◌,
}
use kubernetes_redis_operato.Prelude.Int.{pos, ltb_ℤ}
use kubernetes_redis_operato.Go.Text.{Str, codes, str_eq}
use kubernetes_redis_operato.Redis.Effect.{Error, Result, Command, pure, for_each}
use kubernetes_redis_operato.Redis.Loops.{All, Issues, Issues-pure, Issues-call, Issues-for_each}
use kubernetes_redis_operato.Redis.Chain.{
  Chain, bind, silent, choose, option-Issues, wrapped, attempted, lifted, asked,
}
use kubernetes_redis_operato.Redis.Node.{master_node_ids}
use kubernetes_redis_operato.Redis.Addr.{split_addr}
use kubernetes_redis_operato.Redis.Client.{RedisClient, Runtime}
use kubernetes_redis_operato.Redis.Calls
use kubernetes_redis_operato.Redis.Slots.Partition.{assigned, receivers}
use kubernetes_redis_operato.Redis.Wait.{second, poll, wait_for_cluster_ready, wait_for_known_nodes}
use kubernetes_redis_operato.Redis.Form.{
  meet_peer, meet_peers, meet_rows, meet_masters, meet_replica, follow, replicate_from,
  attach_replicas, form_replicas,
}

-- A command that assigns no slots.
abbrev pub NoSlots : Command → Type 0
NoSlots (Command.cluster_add_slots addr slots) = ⊥
NoSlots _ = Unit {0}

pub assigned-NoSlots :
    (es : List Command) → All NoSlots es → (assigned es ≡ []) × (receivers es ≡ [])
assigned-NoSlots [] h = (refl, refl)
assigned-NoSlots (Command.cluster_add_slots addr slots ∷ es) h = elim h.0 [ ]
assigned-NoSlots (_ ∷ es) h = assigned-NoSlots es h.1

pub receivers-append :
    (es rest : List Command) → receivers (es ++ rest) ≡ receivers es ++ receivers rest
receivers-append [] rest = refl
receivers-append (Command.cluster_add_slots addr slots ∷ es) rest =
    ap (λ t. addr ∷ t) (receivers-append es rest)
receivers-append (_ ∷ es) rest = receivers-append es rest

-- A computation that assigns nothing, whatever the answers.
abbrev pub Quiet : Type 0 → Type 0
Quiet = Chain NoSlots

module _ (rt : Runtime) (c : RedisClient) where
  clock-Issues : Issues NoSlots (Calls.clock rt)
  clock-Issues l = (Command.clock ∷ [], refl, (tt, tt))

  poll-Issues :
      {A : Type 0} (fuel deadline : ℕ) (probe : Quiet (Option A)) (e : Error)
      → Issues NoSlots (poll rt fuel deadline probe.0 e)
  unfolding poll
  poll-Issues zero deadline probe e = λ l. ([], refl, tt)
  poll-Issues (suc fuel) deadline probe e =
      (bind (Calls.clock rt, clock-Issues)
        (λ t.
          choose (ltb t deadline)
            (bind probe (λ r.
              let again =
                bind (Calls.wait rt (2 * second), Issues-call NoSlots _ rt.select tt)
                  (λ _. (poll rt fuel deadline probe.0 e, poll-Issues fuel deadline probe e)) in
              (elim r [ none ↦ again.0 | some a ↦ pure a ], option-Issues r again)))
            (silent (λ _. Result.err e)))).1

  abbrev polled : {A : Type 0} → ℕ → ℕ → Quiet (Option A) → Error → Quiet A
  polled fuel deadline probe e =
      (poll rt fuel deadline probe.0 e, poll-Issues fuel deadline probe e)

  pub wait_for_known_nodes-Issues :
      (fuel : ℕ) (addr : Str) (expected timeout : ℕ)
      → Issues NoSlots (wait_for_known_nodes rt c fuel addr expected timeout)
  unfolding wait_for_known_nodes
  wait_for_known_nodes-Issues fuel addr expected timeout =
      (bind (Calls.clock rt, clock-Issues)
        (λ start.
          polled fuel (start + timeout)
            (bind (attempted (asked (Command.cluster_info addr) tt c.cluster_info)) (λ r.
              silent (λ _. Result.ok (elim r [
                | inl _ ↦ none
                | inr i ↦ if ltb_ℤ i.known_nodes (pos expected) then none else some tt
              ]))))
            (Error.not_known addr expected))).1

  pub wait_for_cluster_ready-Issues :
      (fuel : ℕ) (addr : Str) (timeout : ℕ)
      → Issues NoSlots (wait_for_cluster_ready rt c fuel addr timeout)
  unfolding wait_for_cluster_ready
  wait_for_cluster_ready-Issues fuel addr timeout =
      (bind (Calls.clock rt, clock-Issues)
        (λ start.
          polled fuel (start + timeout)
            (bind (attempted (asked (Command.cluster_info addr) tt c.cluster_info)) (λ r.
              silent (λ _. Result.ok (elim r [
                | inl _ ↦ none
                | inr i ↦ if str_eq i.state (codes "ok") then some tt else none
              ]))))
            (Error.not_ready addr))).1

  meet_peer-Issues : (addr peer : Str) → Issues NoSlots (meet_peer c addr peer)
  unfolding meet_peer
  meet_peer-Issues addr peer =
      (bind (wrapped (Error.invalid_master_address peer) (lifted (split_addr peer))) (λ (ip, port).
        wrapped (Error.meet_failed addr peer)
          (asked (Command.cluster_meet addr ip port) tt c.cluster_meet))).1

  meet_peers-Issues :
      (addr : Str) (i j : ℕ) (peers : List Str) → Issues NoSlots (meet_peers c addr i j peers)
  unfolding meet_peers
  meet_peers-Issues addr i j [] = Issues-pure NoSlots tt
  meet_peers-Issues addr i j (peer ∷ peers) =
      (bind
        (choose (i == j) (silent (λ _. Result.ok tt))
          (meet_peer c addr peer, meet_peer-Issues addr peer))
        (λ _. (meet_peers c addr i (j + 1) peers, meet_peers-Issues addr i (j + 1) peers))).1

  meet_rows-Issues :
      (masters : List Str) (i : ℕ) (addrs : List Str) → Issues NoSlots (meet_rows c masters i addrs)
  unfolding meet_rows
  meet_rows-Issues masters i [] = Issues-pure NoSlots tt
  meet_rows-Issues masters i (addr ∷ addrs) =
      (bind (meet_peers c addr i 0 masters, meet_peers-Issues addr i 0 masters)
        (λ _. (meet_rows c masters (i + 1) addrs, meet_rows-Issues masters (i + 1) addrs))).1

  pub meet_masters-Issues : (masters : List Str) → Issues NoSlots (meet_masters c masters)
  unfolding meet_masters
  meet_masters-Issues masters = meet_rows-Issues masters 0 masters

  meet_replica-Issues : (first replica : Str) → Issues NoSlots (meet_replica c first replica)
  unfolding meet_replica
  meet_replica-Issues first replica =
      (bind (wrapped (Error.invalid_replica_address replica) (lifted (split_addr replica)))
        (λ (ip, port).
          wrapped (Error.meet_replica_failed replica)
            (asked (Command.cluster_meet first ip port) tt c.cluster_meet))).1

  follow-Issues : (replica : Str) (o : Option Str) → Issues NoSlots (follow c replica o)
  follow-Issues replica none = λ l. ([], refl, tt)
  follow-Issues replica (some id) =
      (wrapped (Error.replicate_failed replica id)
        (asked (Command.cluster_replicate replica id) tt c.cluster_replicate)).1

  replicate_from-Issues :
      (ids : List Str) (i : ℕ) (replicas : List Str)
      → Issues NoSlots (replicate_from c ids i replicas)
  unfolding replicate_from
  replicate_from-Issues ids i [] = Issues-pure NoSlots tt
  replicate_from-Issues ids i (replica ∷ replicas) =
      let id = get_elem? ids (i % length ids) in
      (bind (follow c replica id, follow-Issues replica id)
        (λ _.
          (replicate_from c ids (i + 1) replicas, replicate_from-Issues ids (i + 1) replicas))).1

  attach_replicas-Issues :
      (first : Str) (count : ℕ) (replicas : List Str)
      → Issues NoSlots (attach_replicas c first count replicas)
  unfolding attach_replicas
  attach_replicas-Issues first count replicas =
      (bind (wrapped Error.fetching_nodes (asked (Command.cluster_nodes first) tt c.cluster_nodes))
        (λ nodes.
          let ids = master_node_ids nodes in
          choose (length ids == count)
            (replicate_from c ids 0 replicas, replicate_from-Issues ids 0 replicas)
            (silent (λ _. Result.err (Error.wrong_master_count count (length ids)))))).1

  pub form_replicas-Issues :
      (fuel : ℕ) (first : Str) (masters replicas : List Str)
      → Issues NoSlots (form_replicas c rt fuel first masters replicas)
  unfolding form_replicas
  form_replicas-Issues fuel first masters replicas =
      let n = length masters + length replicas in
      (bind
        (
          for_each (meet_replica c first) replicas,
          Issues-for_each NoSlots (meet_replica c first) replicas (meet_replica-Issues first),
        )
        (λ _.
          bind
            (wrapped Error.waiting_replicas (
              wait_for_known_nodes rt c fuel first n (60 * second),
              wait_for_known_nodes-Issues fuel first n (60 * second),
            ))
            (λ _. (
              attach_replicas c first (length masters) replicas,
              attach_replicas-Issues first (length masters) replicas,
            )))).1
