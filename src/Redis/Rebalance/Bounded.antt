-- ===== src/Redis/Rebalance/Bounded.antt =====
-- How many slots a donor of `RebalanceSlots` gives, and which.
use kubernetes_redis_operato.Prelude.{
  ℕ, zero, suc, ◌+◌, ◌-◌, ◌≤◌, ◌^◌, ◌≡◌, refl, arith, true, Bool-cases, ◌||◌, List, [], ◌∷◌, ◌⊎◌,
  inl, inr, length, length-append,
}
use kubernetes_redis_operato.Prelude.Int.{
  ℤ, pos, negsuc, ◌≤ℤ◌, ◌-ℤ◌, ◌+ℤ◌, ltb_ℤ, pos_part, int_laws, neg_part,
}
use kubernetes_redis_operato.Go.Text.{Str, str_eq, str_eq_iff}
use kubernetes_redis_operato.Go.Word.{int64, int64_fits}
use kubernetes_redis_operato.Go.Map.{Map, lookup, or_zero}
use kubernetes_redis_operato.Redis.Effect.{Log, M, for_each, ◌>>=◌}
use kubernetes_redis_operato.Redis.Loops.{All, All-append, All-map, and_then-pure}
use kubernetes_redis_operato.Redis.Node.{
  ClusterNode, SlotRange, range_slots, ranges_slots, collect_slots, node_id_for_addr,
}
use kubernetes_redis_operato.Redis.Client.{RedisClient}
use kubernetes_redis_operato.Redis.Migrate.{migrate_slot}
use kubernetes_redis_operato.Redis.Migrate.Openings.{LimitedAt, step, more, none_opened}
use kubernetes_redis_operato.Redis.Migrate.Opened.{migrate_slot-LimitedAt}
use kubernetes_redis_operato.Redis.Rebalance.{min_ℤ, give, give_all}

-- One of the ranges has the slot.
abbrev pub InRanges : List SlotRange → ℤ → Type 0
InRanges [] slot = ⊥
InRanges (r ∷ rs) slot = ((r.start ≤ℤ slot) × (slot ≤ℤ r.end)) ⊎ InRanges rs slot

-- Among the nodes, one with the identifier has the slot.
abbrev pub Owns : List ClusterNode → Str → ℤ → Type 0
Owns [] id slot = ⊥
Owns (n ∷ nodes) id slot = ((n.node_id ≡ id) × InRanges n.slots slot) ⊎ Owns nodes id slot

range_slots-All :
    (room : ℕ) (s end : ℤ)
    → All (λ z. (s ≤ℤ z) × (z ≤ℤ end)) (range_slots room s end)
      × (length (range_slots room s end) ≤ room)
unfolding range_slots
range_slots-All zero s end = (tt, omega arith)
range_slots-All (suc room) s end = elim (Bool-cases (ltb_ℤ end s)) [
  | inl over ↦ rw over (tt, omega arith)
  | inr inside ↦
      let (within, few) = range_slots-All room (s +ℤ pos 1) end in
      let first : s ≤ℤ end = ground arith in
      rw inside
        (((omega arith, first), All-map _ (λ z h. (omega int_laws, h.1)) within), omega arith)
]

ranges_slots-All :
    (room : ℕ) (rs : List SlotRange)
    → All (InRanges rs) (ranges_slots room rs) × (length (ranges_slots room rs) ≤ room)
unfolding ranges_slots
ranges_slots-All room [] = (tt, omega arith)
ranges_slots-All room (r ∷ rs) =
    let found = range_slots room r.start r.end in
    let (within, few) = range_slots-All room r.start r.end in
    let (others, fewer) = ranges_slots-All (room - length found) rs in
    (
      All-append _ found _ (All-map found (λ z h. inl h) within)
          (All-map (ranges_slots (room - length found) rs) (λ z h. inr h) others),
      rw length-append (omega arith),
    )

-- The slots that are collected belong to the node, and are at most as many as asked for.
collect_slots-All :
    (nodes : List ClusterNode) (id : Str) (count : ℕ)
    → All (Owns nodes id) (collect_slots nodes id count)
      × (length (collect_slots nodes id count) ≤ count)
unfolding collect_slots
collect_slots-All [] id count = (tt, omega arith)
collect_slots-All (n ∷ nodes) id count = elim (Bool-cases (str_eq n.node_id id)) [
  | inl same ↦
      let found = ranges_slots count n.slots in
      let (within, few) = ranges_slots-All count n.slots in
      let (others, fewer) = collect_slots-All nodes id (count - length found) in
      rw same (
        All-append _ found _
            (All-map found (λ z h. inl ((str_eq_iff n.node_id id).0 same, h)) within)
            (All-map (collect_slots nodes id (count - length found)) (λ z h. inr h) others),
        rw length-append (omega arith),
      )
  | inr other ↦
      let (others, few) = collect_slots-All nodes id count in
      rw other (All-map (collect_slots nodes id count) (λ z h. inr h) others, few)
]

-- Between 0 and 2^62.
abbrev pub Fits : ℤ → Type 0
Fits z = (pos 0 ≤ℤ z) × (z ≤ℤ pos (2 ^ 62))

difference-Fits : (a b : ℤ) → Fits a → Fits b → b ≤ℤ a → (int64 (a -ℤ b) ≡ a -ℤ b) × Fits (a -ℤ b)
difference-Fits a b ha hb h =
    (int64_fits (a -ℤ b) (omega int_laws) (omega int_laws), (omega int_laws, omega int_laws))

pub no_negative : (z : ℤ) → pos 0 ≤ℤ z → neg_part z ≡ 0
no_negative (pos n) h = refl
no_negative (negsuc n) h = absurd (omega arith)

-- A receiver that lacks slots is given at most the excess, and that many are left less.
spent :
    (target held excess : ℤ)
    → Fits target
    → Fits held
    → Fits excess
    → ltb_ℤ held target ≡ true
    → let needed = min_ℤ (int64 (target -ℤ held)) excess in
      (pos_part needed + pos_part (int64 (excess -ℤ needed)) ≤ pos_part excess)
      × Fits (int64 (excess -ℤ needed))
spent target held excess ht hh he lacks =
    let (exact, fits) = difference-Fits target held ht hh (ground arith) in
    let d = target -ℤ held in
    elim (Bool-cases (ltb_ℤ excess d)) [
      | inl less ↦
          let (same, left) = difference-Fits excess excess he he (omega arith) in
          let a = no_negative excess he.0 in
          let b = no_negative (excess -ℤ excess) left.0 in
          rw (exact, less, same) (omega int_laws, left)
      | inr enough ↦
          let (same, left) = difference-Fits excess d he fits (ground arith) in
          let a = no_negative excess he.0 in
          let b = no_negative (excess -ℤ d) left.0 in
          let e = no_negative d fits.0 in rw (exact, enough, same) (omega int_laws, left)
    ]

for_each-LimitedAt :
    {A : Type 0} {Q : ℤ → Type 0} (body : A → M (Unit {0})) (xs : List A) (P : A → Type 0)
    → ((x : A) → P x → (l : Log) → LimitedAt Q 1 (body x l) l)
    → All P xs
    → (l : Log) → LimitedAt Q (length xs) (for_each body xs l) l
unfolding for_each
for_each-LimitedAt body [] P h p = (none_opened tt).1
for_each-LimitedAt body (x ∷ xs) P h p = more (1 + length xs) (length (x ∷ xs)) (omega arith) (
    step {j = 1} {k = length xs} (body x, h x p.0)
      (λ _. (for_each body xs, for_each-LimitedAt body xs P h p.1)))

lookup-Fits : (m : Map ℤ) (k : Str) → All (λ e. Fits e.1) m → Fits (or_zero (pos 0) (lookup k m))
unfolding lookup
lookup-Fits [] k h = (omega arith, omega arith)
lookup-Fits ((j, v) ∷ m) k h = elim (Bool-cases (str_eq j k)) [
  | inl same ↦ rw same h.0
  | inr other ↦ rw other (lookup-Fits m k h.1)
]

module _ (c : RedisClient) (fuel : ℕ) (target : ℤ) (counts : Map ℤ) (some_target : Fits target)
    (some_counts : All (λ (e : Str × ℤ). Fits e.1) counts) (donor_id donor_addr : Str)
    (nodes : List ClusterNode) where
  -- One receiver: the slots are opened that are missing, and the rest of the excess goes on.
  given :
      (receiver : Str) (next : ℤ → M (Unit {0})) (excess : ℤ) (l : Log)
      → Fits excess
      → ((left : ℤ) (l' : Log)
          → Fits left
          → LimitedAt (Owns nodes donor_id) (pos_part left) (next left l') l')
      → LimitedAt
          (Owns nodes donor_id)
          (pos_part excess)
          ((give c fuel target counts donor_id donor_addr nodes excess receiver >>= next) l)
          l
  unfolding give
  given receiver next excess l fits h =
      let id = node_id_for_addr nodes receiver in
      let held = or_zero (pos 0) (lookup id counts) in
      let needed = min_ℤ (int64 (target -ℤ held)) excess in
      let left = int64 (excess -ℤ needed) in
      let slots = collect_slots nodes donor_id (pos_part needed) in
      elim (Bool-cases (str_eq receiver donor_addr || ltb_ℤ excess (pos 1))) [
        | inl out ↦ rw out (h excess l fits)
        | inr going ↦ elim (Bool-cases (str_eq id [])) [
          | inl unknown ↦ rw (going, unknown) (h excess l fits)
          | inr found ↦ elim (Bool-cases (ltb_ℤ held target)) [
            | inr full ↦ rw (going, found, full) (h excess l fits)
            | inl lacks ↦
                let (within, few) = collect_slots-All nodes donor_id (pos_part needed) in
                let (bound, rest) =
                  spent target held excess some_target (lookup-Fits counts id some_counts) fits
                    lacks in
                rw
                  (
                    going,
                    found,
                    lacks,
                    and_then-pure (for_each (migrate_slot c fuel donor_addr receiver) slots l) left
                        next,
                  )
                  (more (length slots + pos_part left) (pos_part excess) (omega arith)
                    (step {j = length slots} {k = pos_part left}
                      (
                        for_each (migrate_slot c fuel donor_addr receiver) slots,
                        for_each-LimitedAt (migrate_slot c fuel donor_addr receiver) slots
                            (Owns nodes donor_id)
                            (λ z q.
                              migrate_slot-LimitedAt (Owns nodes donor_id) c z q fuel donor_addr
                                receiver)
                            within,
                      )
                      (λ _. (next left, λ l'. h left l' rest)))
                    l)
          ]
        ]
      ]

  pub give_all-LimitedAt :
      (receivers : List Str) (excess : ℤ) (l : Log)
      → Fits excess
      → LimitedAt
          (Owns nodes donor_id)
          (pos_part excess)
          (give_all c fuel target counts donor_id donor_addr nodes excess receivers l)
          l
  unfolding give_all
  give_all-LimitedAt [] excess l fits = more 0 (pos_part excess) (omega arith) (none_opened tt) l
  give_all-LimitedAt (r ∷ rs) excess l fits =
      given r (λ left. give_all c fuel target counts donor_id donor_addr nodes left rs) excess l
        fits (λ left l' h. give_all-LimitedAt rs left l' h)
