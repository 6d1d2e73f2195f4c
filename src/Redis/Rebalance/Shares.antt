-- ===== src/Redis/Rebalance/Shares.antt =====
-- What each donor of `RebalanceSlots` gives.
use native.Mathlib.Bridge.{le_prop}
use mathlib.Core.List.{append-nil, Perm, Mem, mem-cons, not-mem-nil, mem-cons_self}
use mathlib.Core.List.Perm
use mathlib.Core.Logic.Or
use kubernetes_redis_operato.Prelude.{
  ℕ, ◌-◌, ◌/◌, ◌≤◌, ◌≡◌, refl, sym, ap, ◌∙◌, arith, true, Bool-cases, List, [], ◌∷◌, ◌++◌, inl, inr,
  length,
}
use kubernetes_redis_operato.Prelude.Int.{ℤ, pos, negsuc, ◌≤ℤ◌, ◌-ℤ◌, ltb_ℤ, pos_part, int_laws}
use kubernetes_redis_operato.Go.Text.{Str}
use kubernetes_redis_operato.Go.Word.{int64, int64_fits}
use kubernetes_redis_operato.Go.Map.{Map, lookup, or_zero}
use kubernetes_redis_operato.Redis.Effect.{
  Result, Command, Log, emit, and_then, for_each, answer_cases,
}
use kubernetes_redis_operato.Redis.Loops.{All, All-map, emit-append}
use kubernetes_redis_operato.Redis.Node.{ClusterNode, is_master, slot_total, total_hash_slots}
use kubernetes_redis_operato.Redis.Client.{RedisClient, Runtime}
use kubernetes_redis_operato.Redis.Migrate.Openings.{openings, openings-nil, About, LimitedAt}
use kubernetes_redis_operato.Redis.Rebalance.{
  excess_of, master_addrs, slot_counts, donate, rebalance_slots,
}
use kubernetes_redis_operato.Redis.Rebalance.Bounded.{no_negative, Owns, Fits, give_all-LimitedAt}
use kubernetes_redis_operato.Redis.Rebalance.Idle.{slot_counts-All}

-- A node has answered that the node with the identifier has the slot.
abbrev pub Listed : RedisClient → Str → ℤ → Type 0
Listed c id slot =
    (addr : Str) × (l : Log) × (nodes : List ClusterNode) × (c.cluster_nodes
        (Command.cluster_nodes addr ∷ l)
      ≡ inr nodes)
    × Owns nodes id slot

-- The commands are those of the donors, one after the other: each sets the state only of slots that
-- are listed for it, and opens at most as many as it has over the target.
abbrev pub Shares : RedisClient → ℕ → Map ℤ → List Command → Type 0
Shares c target [] es = es ≡ []
Shares c target ((id, count) ∷ entries) es =
    (own : List Command) × (others : List Command) × (es ≡ own ++ others)
    × All (About (Listed c id)) own
    × (openings own ≤ pos_part count - target)
    × Shares c target entries others

Shares-nil : (c : RedisClient) (target : ℕ) (entries : Map ℤ) → Shares c target entries []
Shares-nil c target [] = refl
Shares-nil c target ((id, count) ∷ entries) = ([], [], refl, tt, few, Shares-nil c target entries)
  where
    few : openings [] ≤ pos_part count - target
    few = let h = openings-nil in omega arith

About-map : (P Q : ℤ → Type 0) (e : Command) → ((z : ℤ) → P z → Q z) → About P e → About Q e
About-map P Q (Command.cluster_set_slot addr slot kind id) f h = f slot h
About-map P Q _ f h = tt

excess-Fits :
    (count : ℤ) (target : ℕ)
    → Fits count
    → Fits (pos target)
    → ltb_ℤ (pos 0) (excess_of count (pos target)) ≡ true
    → Fits (excess_of count (pos target))
      × (pos_part (excess_of count (pos target)) ≤ pos_part count - target)
excess-Fits (pos n) target fits ht over =
    let same : int64 (pos n -ℤ pos target) ≡ pos n -ℤ pos target =
      int64_fits (pos n -ℤ pos target) (omega int_laws) (omega int_laws) in
    let positive : ltb_ℤ (pos 0) (pos n -ℤ pos target) ≡ true = (rw same at over) in
    let some_left : pos 0 ≤ℤ pos n -ℤ pos target = ground arith in
    let sign = no_negative (pos n -ℤ pos target) some_left in
    rw same ((some_left, omega int_laws), omega int_laws)
excess-Fits (negsuc n) target fits ht over = absurd (omega arith)

module _ (c : RedisClient) (fuel target : ℕ) (counts : Map ℤ) (receivers : List Str)
    (addrs : Map Str) (some_target : Fits (pos target))
    (some_counts : All (λ (e : Str × ℤ). Fits e.1) counts) where
  donated :
      (id : Str) (count : ℤ) (l : Log)
      → Fits count
      → LimitedAt
          (Listed c id)
          (pos_part count - target)
          (donate c fuel (pos target) counts receivers addrs (id, count) l)
          l
  unfolding donate
  donated id count l fits = elim (Bool-cases (ltb_ℤ (pos 0) (excess_of count (pos target)))) [
    | inr idle ↦ let h = openings-nil in rw idle ([], refl, tt, omega arith)
    | inl over ↦
        let addr = or_zero [] (lookup id addrs) in
        let asked = Command.cluster_nodes addr in
        let h = openings-nil in
        elim (answer_cases (c.cluster_nodes (asked ∷ l))) [
          | inl (x, e) ↦ rw (over, e) (asked ∷ [], refl, (tt, tt), unfold openings in omega arith)
          | inr (nodes, e) ↦
              let (small, few) = excess-Fits count target fits some_target over in
              let (es, q, about, limit) =
                give_all-LimitedAt c fuel (pos target) counts some_target some_counts id addr nodes
                  receivers (excess_of count (pos target)) (asked ∷ l) small in
              rw (over, e)
                (
                  asked ∷ es,
                  q,
                  (
                    tt,
                    All-map es
                        (λ x.
                          About-map (Owns nodes id) (Listed c id) x (λ z o. (addr, l, nodes, e, o)))
                        about,
                  ),
                  unfold openings in omega arith,
                )
        ]
  ]

  -- The commands of one donor, and of those behind it if it succeeds.
  donated_next :
      (id : Str) (count : ℤ) (entries : Map ℤ) (r : Result (Unit {0}) × Log) (l : Log)
      → LimitedAt (Listed c id) (pos_part count - target) r l
      → ((l' : Log)
          → (es : List Command) × ((for_each
                (donate c fuel (pos target) counts receivers addrs)
                entries
                l').1
              ≡ emit es l')
            × Shares c target entries es)
      → (es : List Command) × ((and_then r
            (λ _. for_each (donate c fuel (pos target) counts receivers addrs) entries)).1
          ≡ emit es l)
        × Shares c target ((id, count) ∷ entries) es
  donated_next id count entries (Result.ok a, l') l (own, q, about, few) h =
      let (others, q', shares) = h l' in
      (
        own ++ others,
        q' ∙ ap (emit others) q ∙ sym (emit-append own others l),
        (own, others, refl, about, few, shares),
      )
  donated_next id count entries (Result.err e, l') l (own, q, about, few) h =
      (own, q, (own, [], sym (append-nil own), about, few, Shares-nil c target entries))
  donated_next id count entries (Result.halt x, l') l (own, q, about, few) h =
      (own, q, (own, [], sym (append-nil own), about, few, Shares-nil c target entries))

  donated_all :
      (entries : Map ℤ) (l : Log)
      → ((x : Str × ℤ) → Mem x entries → Fits x.1)
      → (es : List Command) × ((for_each
            (donate c fuel (pos target) counts receivers addrs)
            entries
            l).1
          ≡ emit es l)
        × Shares c target entries es
  unfolding for_each
  donated_all [] l h = ([], refl, refl)
  donated_all ((id, count) ∷ entries) l h =
      donated_next id count entries
        (donate c fuel (pos target) counts receivers addrs (id, count) l) l
        (donated id count l (h (id, count) mem-cons_self))
        (λ l'. donated_all entries l' (λ x m. h x (mem-cons.1 (Or.inr m))))

Mem-Fits : (m : Map ℤ) (x : Str × ℤ) → All (λ e. Fits e.1) m → Mem x m → Fits x.1
Mem-Fits [] x h mem = absurd (not-mem-nil mem)
Mem-Fits (y ∷ m) x h mem =
    Or.elim (hlevel (le_prop)) (mem-cons.0 mem) (λ e. rw e h.0) (Mem-Fits m x h.1)

-- Whatever the nodes answer, if every master that the first node lists has between 0 and 2^62 slots:
-- after reading the nodes, `RebalanceSlots` visits the masters in turn, sets the state only of slots
-- that are listed for the visited one, and opens at most as many of its slots as it has over 16384 / N
-- for N given addresses; a master without such an excess gives none.
pub rebalance_slots-Shares :
    (c : RedisClient) (rt : Runtime) (fuel : ℕ) (a : Str) (rest : List Str)
    (nodes : List ClusterNode) (l : Log)
    → c.cluster_nodes (Command.cluster_nodes a ∷ l) ≡ inr nodes
    → ((h : Log) (m : Map ℤ) → Perm (rt.visit h m) m)
    → All (λ n. is_master n ≡ true → Fits (slot_total (pos 0) n.slots)) nodes
    → (es : List Command) × ((rebalance_slots c rt fuel (a ∷ rest) l).1
        ≡ emit es (Command.cluster_nodes a ∷ l))
      × Shares c
          (total_hash_slots / length (a ∷ rest))
          (rt.visit (Command.cluster_nodes a ∷ l) (slot_counts [] nodes))
          es
unfolding rebalance_slots
rebalance_slots-Shares c rt fuel a rest nodes l answer order fits =
    let target = total_hash_slots / length (a ∷ rest) in
    let counts = slot_counts [] nodes in
    let some_counts = slot_counts-All (λ e. Fits e.1) [] nodes tt fits in
    rw answer (
      donated_all c fuel target counts (a ∷ rest) (master_addrs [] nodes) (omega arith, omega arith)
        some_counts _ _
        (λ x m. Mem-Fits counts x some_counts ((Perm.mem_iff (order _ counts)).0 m)))
