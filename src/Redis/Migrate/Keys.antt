-- ===== src/Redis/Migrate/Keys.antt =====
-- The loop of `migrateKeys`: what it issues, when it has succeeded, and that it ends.
use kubernetes_redis_operato.Prelude.{
  ◌+◌, arith, ◌⊎◌, ◌≢◌, length, true, ap, if◌then◌else◌, ◌<◌, ◌≤◌, ℕ, zero, suc, ◌≡◌, refl, inl,
  inr, List, [], ◌∷◌,
}
use kubernetes_redis_operato.Prelude.Int.{ℤ}
use kubernetes_redis_operato.Go.Text.{Str, str_eq, contains}
use kubernetes_redis_operato.Redis.Effect.{
  Error, Halt, M, Result, Command, Log, for_each, answer_cases,
}
use kubernetes_redis_operato.Redis.Loops.{
  All, Issues, Issues->>=, Issues-wrapping, Issues-call, Issues-pure, Issues-for_each,
  and_then-eq-ok,
}
use kubernetes_redis_operato.Redis.Client.{RedisClient}
use kubernetes_redis_operato.Redis.Migrate.{
  move_batch, migrate_keys, migrate_key, migrate_batch, migrate_timeout,
}

module _ (source ip : Str) (port slot : ℤ) where
  -- A batch of keys is asked for, or one key is sent to the destination.
  pub data IsMove : Command → Type 0 where
    asks : IsMove (Command.cluster_get_keys_in_slot source slot migrate_batch)
    sends : (key : Str) → IsMove (Command.migrate source ip port key 0 migrate_timeout)

  -- The newest command asked the source for keys of the slot, and there were none.
  abbrev pub Drained : RedisClient → Log → Type 0
  Drained c l =
      (before : Log) × (l ≡ Command.cluster_get_keys_in_slot source slot migrate_batch ∷ before)
      × (c.cluster_get_keys_in_slot l ≡ inr [])

module _ (c : RedisClient) (source ip : Str) (port slot : ℤ) where
  abbrev asked : Command
  asked = Command.cluster_get_keys_in_slot source slot migrate_batch

  abbrev P : Command → Type 0
  P = IsMove source ip port slot

  migrate_key-Issues : (key : Str) → Issues P (migrate_key c source ip port key)
  migrate_key-Issues key = Issues-wrapping P _ _ (Issues-call P _ c.migrate (sends key))

  move_batch-Issues :
      (again : M (Unit {0})) (keys : List Str)
      → Issues P again
      → Issues P (move_batch c source ip port again keys)
  unfolding move_batch
  move_batch-Issues again [] h = Issues-pure P tt
  move_batch-Issues again (k ∷ ks) h =
      Issues->>= P (for_each (migrate_key c source ip port) (k ∷ ks)) (λ _. again)
        (Issues-for_each P (migrate_key c source ip port) (k ∷ ks) migrate_key-Issues) (λ _. h)

  -- Nothing is issued but requests for keys of the slot and moves to the destination.
  pub migrate_keys-Issues : (fuel : ℕ) → Issues P (migrate_keys c fuel source ip port slot)
  unfolding migrate_keys
  migrate_keys-Issues zero = λ l. ([], refl, tt)
  migrate_keys-Issues (suc fuel) =
      Issues->>= P _ _ (Issues-wrapping P _ _ (Issues-call P _ c.cluster_get_keys_in_slot asks))
        λ keys. move_batch-Issues _ keys (migrate_keys-Issues fuel)

  move_batch-Drained :
      (again : M (Unit {0})) (keys : List Str) (l : Log)
      → c.cluster_get_keys_in_slot (asked ∷ l) ≡ inr keys
      → ((l' : Log) → (again l').0 ≡ Result.ok tt → Drained source ip port slot c (again l').1)
      → (move_batch c source ip port again keys (asked ∷ l)).0 ≡ Result.ok tt
      → Drained source ip port slot c (move_batch c source ip port again keys (asked ∷ l)).1
  unfolding move_batch
  move_batch-Drained again [] l answer h done = (l, refl, answer)
  move_batch-Drained again (k ∷ ks) l answer h done =
      let (_, l', e, done') =
        and_then-eq-ok (for_each (migrate_key c source ip port) (k ∷ ks) (asked ∷ l)) _ done in
      rw e (h l' done')

  -- Success means that the source had no key of the slot left when it was last asked.
  pub migrate_keys-Drained :
      (fuel : ℕ) (l : Log)
      → (migrate_keys c fuel source ip port slot l).0 ≡ Result.ok tt
      → Drained source ip port slot c (migrate_keys c fuel source ip port slot l).1
  unfolding migrate_keys
  migrate_keys-Drained zero l done = cc
  migrate_keys-Drained (suc fuel) l done =
      elim (answer_cases (c.cluster_get_keys_in_slot (asked ∷ l))) [
        | inl (x, e) ↦ cc (rw e at done)
        | inr (keys, e) ↦
            rw e (move_batch-Drained _ keys l e (migrate_keys-Drained fuel) (rw e at done))
      ]

-- The list without the key.
unfoldable pub without : Str → List Str → List Str
unfolding str_eq
without key [] = []
without key (k ∷ ks) = let rest = without key ks in if str_eq k key then rest else k ∷ rest

-- How the source answers while nobody else writes to the slot, in terms of the keys of the slot that it
-- holds: it lists some of them; a `MIGRATE` that it accepts takes the
-- key away if it holds that, and changes nothing if not (NOKEY).
pub record Holds (c : RedisClient) (source ip : Str) (port slot : ℤ) (held : Log → List Str)
    : Type 0 where
  pub asking :
      (l : Log) → held (Command.cluster_get_keys_in_slot source slot migrate_batch ∷ l) ≡ held l
  pub listing :
      (l : Log) (keys : List Str)
      → c.cluster_get_keys_in_slot (Command.cluster_get_keys_in_slot source slot migrate_batch ∷ l)
        ≡ inr keys
      → All (λ key. contains (held l) key ≡ true) keys
  pub sending :
      (l : Log) (key : Str)
      → c.migrate (Command.migrate source ip port key 0 migrate_timeout ∷ l) ≡ inr tt
      → held (Command.migrate source ip port key 0 migrate_timeout ∷ l) ≡ without key (held l)

length-without : (key : Str) (ks : List Str) → length (without key ks) ≤ length ks
unfolding without
length-without key [] = omega arith
length-without key (k ∷ ks) = ground (arith, length-without key ks)

length-without_held :
    (key : Str) (ks : List Str) → contains ks key ≡ true → length (without key ks) + 1 ≤ length ks
unfolding without contains
length-without_held key [] h = cc
length-without_held key (k ∷ ks) h =
    ground (arith, length-without key ks, length-without_held key ks)

module _ (c : RedisClient) (source ip : Str) (port slot : ℤ) (held : Log → List Str)
    (law : Holds c source ip port slot held) where
  abbrev NoHalt : Result (Unit {0}) → Type 0
  NoHalt r = (h : Halt) → r ≢ Result.halt h

  abbrev left : Log → ℕ
  left l = length (held l)

  -- A batch fails, or leaves no more keys than there were.
  moved :
      (keys : List Str) (l : Log)
      → ((e : Error) × (l' : Log) × (for_each (migrate_key c source ip port) keys l
            ≡ (Result.err e, l')))
        ⊎ ((l' : Log) × (for_each (migrate_key c source ip port) keys l ≡ (Result.ok tt, l'))
            × (left l' ≤ left l))
  unfolding for_each
  moved [] l = inr (l, refl, omega arith)
  moved (k ∷ ks) l =
      let e = Command.migrate source ip port k 0 migrate_timeout in
      elim (answer_cases (c.migrate (e ∷ l))) [
        | inl (x, p) ↦ inl (Error.migrate_failed k x, e ∷ l, rw p)
        | inr (_, p) ↦ rw p (elim (moved ks (e ∷ l)) [
          | inl f ↦ inl f
          | inr (l', q, less) ↦
              let gone : left (e ∷ l) ≡ length (without k (held l)) =
                ap length (law.sending l k p) in
              inr (l', q, omega (arith, gone, length-without k (held l)))
        ])
      ]

  -- A batch whose first key is held fails, or leaves fewer keys.
  moved_held :
      (k : Str) (ks : List Str) (l : Log)
      → contains (held l) k ≡ true
      → ((e : Error) × (l' : Log) × (for_each (migrate_key c source ip port) (k ∷ ks) l
            ≡ (Result.err e, l')))
        ⊎ ((l' : Log) × (for_each (migrate_key c source ip port) (k ∷ ks) l ≡ (Result.ok tt, l'))
            × (left l' + 1 ≤ left l))
  unfolding for_each
  moved_held k ks l is =
      let e = Command.migrate source ip port k 0 migrate_timeout in
      elim (answer_cases (c.migrate (e ∷ l))) [
        | inl (x, p) ↦ inl (Error.migrate_failed k x, e ∷ l, rw p)
        | inr (_, p) ↦ rw p (elim (moved ks (e ∷ l)) [
          | inl f ↦ inl f
          | inr (l', q, less) ↦
              let gone : left (e ∷ l) ≡ length (without k (held l)) =
                ap length (law.sending l k p) in
              inr (l', q, omega (arith, gone, length-without_held k (held l) is))
        ])
      ]

  move_batch_ends :
      (again : M (Unit {0})) (keys : List Str) (l : Log)
      → ((l' : Log) → left l' + 1 ≤ left l → NoHalt (again l').0)
      → All (λ key. contains (held l) key ≡ true) keys
      → NoHalt (move_batch c source ip port again keys l).0
  unfolding move_batch
  move_batch_ends again [] l next fits = λ h e. cc
  move_batch_ends again (k ∷ ks) l next fits = elim (moved_held k ks l fits.0) [
    | inl (x, l', q) ↦ rw q (λ h e. cc)
    | inr (l', q, less) ↦ rw q (next l' less)
  ]

  -- Where the source answers as `Holds` says, and with more fuel than it holds keys of the slot, the
  -- loop over batches of keys neither runs out of fuel nor panics.
  pub migrate_keys_ends :
      (fuel : ℕ) (l : Log)
      → length (held l) < fuel
      → NoHalt (migrate_keys c fuel source ip port slot l).0
  unfolding migrate_keys
  migrate_keys_ends zero l enough = absurd (omega arith)
  migrate_keys_ends (suc fuel) l enough =
      let e = Command.cluster_get_keys_in_slot source slot migrate_batch in
      elim (answer_cases (c.cluster_get_keys_in_slot (e ∷ l))) [
        | inl (x, p) ↦ rw p (λ h q. cc)
        | inr (keys, p) ↦
            let same : held (e ∷ l) ≡ held l = law.asking l in
            rw p (
              move_batch_ends _ keys (e ∷ l)
                (λ l' less. migrate_keys_ends fuel l' (omega (arith, ap length same)))
                (rw same (law.listing l keys p)))
      ]
