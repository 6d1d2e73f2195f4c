-- ===== src/Redis/Form/Covers.antt =====
-- What `FormCluster` assigns.
use mathlib.Core.List.{append-nil}
use kubernetes_redis_operato.Prelude.{
  ℕ, ◌*◌, ◌≤◌, ltb, ◌≡◌, refl, sym, ap, ◌∙◌, arith, Bool, true, false, ◌||◌, List, [], ◌∷◌, ◌++◌,
  length, if◌then◌else◌,
}
use kubernetes_redis_operato.Prelude.Int.{ℤ}
use kubernetes_redis_operato.Go.Text.{Str}
use kubernetes_redis_operato.Redis.Effect.{
  Error, Result, Command, Log, M, fail, emit, and_then, rewrap, ◌>>=◌,
}
use kubernetes_redis_operato.Redis.Loops.{All, emit-append, rewrap-log, rewrap-eq-ok}
use kubernetes_redis_operato.Redis.Node.{total_hash_slots}
use kubernetes_redis_operato.Redis.Client.{RedisClient, Runtime}
use kubernetes_redis_operato.Redis.Slots.{assign_slots_evenly, range_from}
use kubernetes_redis_operato.Redis.Slots.Partition.{
  assigned, receivers, assigned-append, assign_slots_evenly_covers,
}
use kubernetes_redis_operato.Redis.Wait.{second, wait_for_cluster_ready, wait_for_known_nodes}
use kubernetes_redis_operato.Redis.Form.{
  meet_masters, meet_masters, form_masters, form_replicas, form_cluster, is_nil, is_zero,
}
use kubernetes_redis_operato.Redis.Chain.{silent, choose, wrapped}
use kubernetes_redis_operato.Redis.Form.Quiet.{
  NoSlots, Quiet, assigned-NoSlots, receivers-append, meet_masters-Issues,
  wait_for_known_nodes-Issues, wait_for_cluster_ready-Issues, form_replicas-Issues,
}

-- From the log `l`, a run with the result `r` assigns 0, 1, 2, … and, if it succeeds, every slot to
-- `masters` in their order.
abbrev pub Spreads : List Str → Result (Unit {0}) × Log → Log → Type 0
Spreads masters r l =
    (es : List Command) × (r.1 ≡ emit es l)
    × (assigned es ≡ range_from 0 (length (assigned es)))
    × (length (assigned es) ≤ total_hash_slots)
    × (r.0 ≡ Result.ok tt → (length (assigned es) ≡ total_hash_slots) × (receivers es ≡ masters))

Spreads-silent :
    (masters : List Str) (r : Result (Unit {0}) × Log) (es : List Command) (l : Log)
    → r.1 ≡ emit es l
    → All NoSlots es
    → ¬ (r.0 ≡ Result.ok tt)
    → Spreads masters r l
Spreads-silent masters r es l q p h =
    let (none_assigned, _) = assigned-NoSlots es p in
    (
      es,
      q,
      rw none_assigned (unfold range_from in refl),
      rw none_assigned (omega arith),
      λ k. elim (h k) [ ],
    )

Spreads-after :
    {A : Type 0} (masters : List Str) (r : Result A × Log) (f : A → M (Unit {0}))
    (es : List Command) (l : Log)
    → r.1 ≡ emit es l
    → All NoSlots es
    → ((a : A) (l' : Log) → Spreads masters (f a l') l')
    → Spreads masters (and_then r f) l
Spreads-after masters (Result.ok a, l') f es l q p h =
    let (fs, q', consecutive, fits, done) = h a l' in
    let (no_slots, no_nodes) = assigned-NoSlots es p in
    let slots : assigned (es ++ fs) ≡ assigned fs = rw (assigned-append es fs, no_slots) refl in
    let nodes : receivers (es ++ fs) ≡ receivers fs = rw (receivers-append es fs, no_nodes) refl in
    (
      es ++ fs,
      q' ∙ ap (emit fs) q ∙ sym (emit-append es fs l),
      rw slots consecutive,
      rw slots fits,
      rw (slots, nodes) done,
    )
Spreads-after masters (Result.err e, l') f es l q p h =
    Spreads-silent masters (Result.err e, l') es l q p (λ k. cc)
Spreads-after masters (Result.halt x, l') f es l q p h =
    Spreads-silent masters (Result.halt x, l') es l q p (λ k. cc)

Spreads-before :
    (masters : List Str) (r : Result (Unit {0}) × Log) (x : Quiet (Unit {0})) (l : Log)
    → Spreads masters r l
    → Spreads masters (and_then r (λ _. x.0)) l
Spreads-before masters (Result.ok a, l') x l (es, q, consecutive, fits, done) =
    let (fs, q', p) = x.1 l' in
    let (no_slots, no_nodes) = assigned-NoSlots fs p in
    let slots : assigned (es ++ fs) ≡ assigned es =
      rw (assigned-append es fs, no_slots, append-nil) refl in
    let nodes : receivers (es ++ fs) ≡ receivers es =
      rw (receivers-append es fs, no_nodes, append-nil) refl in
    (
      es ++ fs,
      q' ∙ ap (emit fs) q ∙ sym (emit-append es fs l),
      rw slots consecutive,
      rw slots fits,
      rw (slots, nodes) (λ _. done refl),
    )
Spreads-before masters (Result.err e, l') x l (es, q, consecutive, fits, done) =
    (es, q, consecutive, fits, λ k. cc)
Spreads-before masters (Result.halt h, l') x l (es, q, consecutive, fits, done) =
    (es, q, consecutive, fits, λ k. cc)

Spreads-rewrap :
    (masters : List Str) (g : Error → Error) (r : Result (Unit {0}) × Log) (l : Log)
    → Spreads masters r l
    → Spreads masters (rewrap g r) l
Spreads-rewrap masters g r l (es, q, consecutive, fits, done) =
    (es, rewrap-log g r ∙ q, consecutive, fits, λ k. done (rewrap-eq-ok g r k))

Spreads-if :
    (masters : List Str) (b : Bool) (m n : M (Unit {0})) (l : Log)
    → Spreads masters (m l) l
    → Spreads masters (n l) l
    → Spreads masters ((if b then m else n) l) l
Spreads-if masters true m n l h k = h
Spreads-if masters false m n l h k = k

Spreads-bind :
    {A : Type 0} (masters : List Str) (x : Quiet A) (f : A → M (Unit {0}))
    → ((a : A) (l : Log) → Spreads masters (f a l) l)
    → (l : Log) → Spreads masters ((x.0 >>= f) l) l
Spreads-bind masters x f h l = let (es, q, p) = x.1 l in Spreads-after masters (x.0 l) f es l q p h

module _ (rt : Runtime) (c : RedisClient) where
  form_masters-Spreads :
      (fuel : ℕ) (first : Str) (masters : List Str) (l : Log)
      → Spreads masters (form_masters c rt fuel first masters l) l
  unfolding form_masters
  form_masters-Spreads fuel first masters =
      let n = length masters in
      Spreads-bind masters (meet_masters c masters, meet_masters-Issues rt c masters) _
        (λ _.
          Spreads-bind masters
            (wrapped Error.waiting_formation (
              wait_for_known_nodes rt c fuel first n (30 * second),
              wait_for_known_nodes-Issues rt c fuel first n (30 * second),
            ))
            _
            (λ _ l.
              let r = assign_slots_evenly c masters l in
              Spreads-before masters (rewrap Error.assigning_slots r)
                (wrapped Error.waiting_ready (
                  wait_for_cluster_ready rt c fuel first (60 * second),
                  wait_for_cluster_ready-Issues rt c fuel first (60 * second),
                ))
                l
                (Spreads-rewrap masters Error.assigning_slots r l
                  (assign_slots_evenly_covers c masters l))))

  -- Whatever the servers answer and whichever step fails, the slots that forming a cluster assigns
  -- are 0, 1, 2, … without a gap or a repetition, at most 16384. If the call succeeds they are all of
  -- 0 to 16383, and the nodes that received a share are the given masters in their order.
  pub form_cluster_covers :
      (fuel : ℕ) (masters replicas : List Str) (per_master : ℤ) (l : Log)
      → (es : List Command) × ((form_cluster c rt fuel masters replicas per_master l).1 ≡ emit es l)
        × (assigned es ≡ range_from 0 (length (assigned es)))
        × (length (assigned es) ≤ total_hash_slots)
        × ((form_cluster c rt fuel masters replicas per_master l).0 ≡ Result.ok tt
            → (length (assigned es) ≡ total_hash_slots) × (receivers es ≡ masters))
  unfolding form_cluster
  form_cluster_covers fuel [] replicas per_master l =
      Spreads-silent [] (Result.err (Error.few_masters 0), l) [] l refl tt (λ k. cc)
  form_cluster_covers fuel (m ∷ ms) replicas per_master l =
      let masters = m ∷ ms in
      Spreads-if masters (ltb (length masters) 3) (fail (Error.few_masters (length masters))) _ l
        (Spreads-silent masters (Result.err (Error.few_masters (length masters)), l) [] l refl tt
          (λ k. cc))
        (Spreads-before masters (form_masters c rt fuel m masters l)
          (choose (is_nil replicas || is_zero per_master) (silent (λ _. Result.ok tt)) (
            form_replicas c rt fuel m masters replicas,
            form_replicas-Issues rt c fuel m masters replicas,
          ))
          l (form_masters-Spreads fuel m masters l))
