-- ===== src/Redis/Slots/Partition.antt =====
-- What `AssignSlotsEvenly` hands out: consecutive shares that cover every hash slot once.
use mathlib.Core.List.{append_assoc, append-nil}
use mathlib.Core.Path.{ap₂}
use kubernetes_redis_operato.Prelude.{
  ◌==◌, ◌∙◌, sym, Bool-cases, ◌%◌, ℕ, zero, suc, ◌+◌, ◌-◌, ◌*◌, ◌/◌, ◌≤◌, ◌<◌, ◌≡◌, refl, ap, List,
  [], ◌∷◌, ◌++◌, length, inl, inr, arith,
}
use kubernetes_redis_operato.Prelude.Int.{ℤ, pos}
use kubernetes_redis_operato.Go.Text.{Str}
use kubernetes_redis_operato.Redis.Effect.{Error, err, ok, Command, Log, emit, answer_cases}
use kubernetes_redis_operato.Redis.Node.{total_hash_slots}
use kubernetes_redis_operato.Redis.Client.{RedisClient}
use kubernetes_redis_operato.Redis.Slots.{assign_slots_evenly, range_from, share, assign_from}

range_from-append : (a m k : ℕ) → range_from a m ++ range_from (a + m) k ≡ range_from a (m + k)
unfolding range_from
range_from-append a zero k = ground arith
range_from-append a (suc m) k =
    let e : a + suc m ≡ a + 1 + m = omega arith in
    let f : suc m + k ≡ suc (m + k) = omega arith in
    rw (e, f) (ap (λ s. pos a ∷ s) (range_from-append (a + 1) m k))

length-range_from : (a m : ℕ) → length (range_from a m) ≡ m
unfolding range_from
length-range_from a zero = refl
length-range_from a (suc m) = ap suc (length-range_from (a + 1) m)

-- The share of every master but the last, and that of the last.
share_inner :
    (n i : ℕ)
    → i + 1 < n
    → share n i ≡ range_from (i * (total_hash_slots / n)) (total_hash_slots / n)
unfolding share
share_inner n i h = ground arith

share_last :
    (n i : ℕ)
    → i + 1 ≡ n
    → share n i
      ≡ range_from (i * (total_hash_slots / n)) (total_hash_slots - i * (total_hash_slots / n))
unfolding share
share_last n i h = ground arith

-- The commands of the loop, and the slots that a list of commands assigns.
abbrev plan : ℕ → ℕ → List Str → List Command
plan n i [] = []
plan n i (addr ∷ addrs) = Command.cluster_add_slots addr (share n i) ∷ plan n (i + 1) addrs

abbrev pub assigned : List Command → List ℤ
assigned [] = []
assigned (Command.cluster_add_slots addr slots ∷ es) = slots ++ assigned es
assigned (e ∷ es) = assigned es

-- The nodes to which a list of commands assigns slots.
abbrev pub receivers : List Command → List Str
receivers [] = []
receivers (Command.cluster_add_slots addr slots ∷ es) = addr ∷ receivers es
receivers (e ∷ es) = receivers es

receivers-plan : (n i : ℕ) (addrs : List Str) → receivers (plan n i addrs) ≡ addrs
receivers-plan n i [] = refl
receivers-plan n i (addr ∷ addrs) = ap (λ t. addr ∷ t) (receivers-plan n (i + 1) addrs)

pub assigned-append :
    (es rest : List Command) → assigned (es ++ rest) ≡ assigned es ++ assigned rest
assigned-append [] rest = refl
assigned-append (Command.cluster_add_slots addr slots ∷ es) rest =
    rw (assigned-append es rest, append_assoc)
assigned-append (_ ∷ es) rest = assigned-append es rest

-- An initial part of consecutive numbers is consecutive.
initial_part :
    (a m : ℕ) (xs ys : List ℤ)
    → range_from a m ≡ xs ++ ys
    → (xs ≡ range_from a (length xs)) × (length xs ≤ m)
unfolding range_from
initial_part a m [] ys e = (refl, omega arith)
initial_part a zero (x ∷ xs) ys e = cc
initial_part a (suc m) (x ∷ xs) ys e =
    let (h, fits) = initial_part (a + 1) m xs ys (cc) in (cc, omega arith)

assigned-plan :
    (n i : ℕ) (addr : Str) (addrs : List Str)
    → i + suc (length addrs) ≡ n
    → assigned (plan n i (addr ∷ addrs))
      ≡ range_from (i * (total_hash_slots / n)) (total_hash_slots - i * (total_hash_slots / n))
assigned-plan n i addr [] e = rw (share_last n i (omega arith), append-nil)
assigned-plan n i addr (a ∷ addrs) e =
    let q = total_hash_slots / n in
    let step : (i + 1) * q ≡ i * q + q = omega arith in
    let fits : (i + 1) * q ≤ total_hash_slots = grind arith in
    let room : q + (total_hash_slots - (i * q + q)) ≡ total_hash_slots - i * q = omega arith in
    rw
      (
        share_inner n i (omega arith),
        assigned-plan n (i + 1) a addrs (omega arith),
        step,
        range_from-append (i * q) q _,
      )
      (ap (range_from (i * q)) room)

assigned-whole :
    (addr : Str) (addrs : List Str)
    → assigned (plan (length (addr ∷ addrs)) 0 (addr ∷ addrs)) ≡ range_from 0 total_hash_slots
assigned-whole addr addrs =
    let n = length (addr ∷ addrs) in
    assigned-plan n 0 addr addrs (omega arith) ∙ ap₂ range_from (omega arith) (omega arith)

-- A first part of the commands hands out an initial part of the slots.
assigned-part :
    (addr : Str) (addrs : List Str) (es rest : List Command)
    → plan (length (addr ∷ addrs)) 0 (addr ∷ addrs) ≡ es ++ rest
    → (assigned es ≡ range_from 0 (length (assigned es)))
      × (length (assigned es) ≤ total_hash_slots)
assigned-part addr addrs es rest p =
    initial_part 0 total_hash_slots (assigned es) (assigned rest)
      (sym (assigned-whole addr addrs) ∙ ap assigned p ∙ assigned-append es rest)

assigned-all :
    (addr : Str) (addrs : List Str) (es : List Command)
    → plan (length (addr ∷ addrs)) 0 (addr ∷ addrs) ≡ es ++ []
    → (length (assigned es) ≡ total_hash_slots) × (receivers es ≡ addr ∷ addrs)
assigned-all addr addrs es p =
    let q : plan (length (addr ∷ addrs)) 0 (addr ∷ addrs) ≡ es = p ∙ append-nil es in
    (
      rw (← q, assigned-whole addr addrs) (length-range_from 0 _),
      rw (← q) (receivers-plan (length (addr ∷ addrs)) 0 (addr ∷ addrs)),
    )

module _ (c : RedisClient) where
  -- The loop issues a first part of its commands, and all of them if it succeeds.
  assign_from_trace :
      (n i : ℕ) (addrs : List Str) (l : Log)
      → (es rest : List Command) × (plan n i addrs ≡ es ++ rest)
        × ((assign_from c n i addrs l).1 ≡ emit es l)
        × ((assign_from c n i addrs l).0 ≡ ok tt → rest ≡ [])
  unfolding assign_from
  assign_from_trace n i [] l = ([], [], refl, refl, λ _. refl)
  assign_from_trace n i (addr ∷ addrs) l =
      let e = Command.cluster_add_slots addr (share n i) in
      elim (answer_cases (c.cluster_add_slots (e ∷ l))) [
        | inl (_, x) ↦ (e ∷ [], plan n (i + 1) addrs, refl, rw x, rw x (λ h. cc))
        | inr (_, x) ↦
            let (es, rest, p, q, h) = assign_from_trace n (i + 1) addrs (e ∷ l) in
            (e ∷ es, rest, ap (λ t. e ∷ t) p, rw x q, rw x h)
      ]

  assign_slots_evenly-cons :
      (addr : Str) (addrs : List Str)
      → assign_slots_evenly c (addr ∷ addrs)
        ≡ assign_from c (length (addr ∷ addrs)) 0 (addr ∷ addrs)
  unfolding assign_slots_evenly
  assign_slots_evenly-cons addr addrs = refl

  assign_slots_evenly-nil : (l : Log) → assign_slots_evenly c [] l ≡ (err Error.no_masters, l)
  unfolding assign_slots_evenly
  assign_slots_evenly-nil l = refl

  -- Whatever the nodes answer, the slots assigned are 0, 1, 2, … without a gap or a repetition, and
  -- there are at most 16384. If every call succeeds they are all of 0 to 16383, and the nodes that
  -- received a share are the given masters in their order.
  pub assign_slots_evenly_covers :
      (addrs : List Str) (l : Log)
      → (es : List Command) × ((assign_slots_evenly c addrs l).1 ≡ emit es l)
        × (assigned es ≡ range_from 0 (length (assigned es)))
        × (length (assigned es) ≤ total_hash_slots)
        × ((assign_slots_evenly c addrs l).0 ≡ ok tt
            → (length (assigned es) ≡ total_hash_slots) × (receivers es ≡ addrs))
  assign_slots_evenly_covers [] l =
      rw (assign_slots_evenly-nil l) ([], refl, unfold range_from in refl, omega arith, λ h. cc)
  assign_slots_evenly_covers (addr ∷ addrs) l =
      let (es, rest, p, q, done) = assign_from_trace (length (addr ∷ addrs)) 0 (addr ∷ addrs) l in
      let (consecutive, fits) = assigned-part addr addrs es rest p in
      rw (assign_slots_evenly-cons addr addrs)
        (es, q, consecutive, fits, λ h. assigned-all addr addrs es (rw (done h) at p))

-- Each of n masters gets at least 16384 / n slots, and at most the remainder more.
pub share_balanced :
    (n i : ℕ)
    → i < n
    → (total_hash_slots / n ≤ length (share n i))
      × (length (share n i) ≤ total_hash_slots / n + total_hash_slots % n)
share_balanced n i h = elim (Bool-cases (i + 1 == n)) [
  | inl last ↦
      let e : i + 1 ≡ n = ground arith in
      let shares : (i + 1) * (total_hash_slots / n) ≡ n * (total_hash_slots / n) =
        ap (λ (t : ℕ). t * (total_hash_slots / n)) e in
      rw (share_last n i e, length-range_from) (omega arith, omega arith)
  | inr inner ↦ rw (share_inner n i (ground arith), length-range_from) (omega arith, omega arith)
]
