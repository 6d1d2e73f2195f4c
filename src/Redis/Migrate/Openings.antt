-- ===== src/Redis/Migrate/Openings.antt =====
-- How many slots a computation opens at their sources, and which slots it is about.
use kubernetes_redis_operato.Prelude.{
  ℕ, ◌+◌, ◌≤◌, ◌≡◌, refl, sym, ap, ◌∙◌, arith, false, List, [], ◌∷◌, ◌++◌, if◌then◌else◌,
}
use kubernetes_redis_operato.Prelude.Int.{ℤ}
use kubernetes_redis_operato.Go.Text.{str_eq}
use kubernetes_redis_operato.Redis.Effect.{Result, Command, Log, M, pure, emit, and_then, ◌>>=◌}
use kubernetes_redis_operato.Redis.Loops.{All, All-append, emit-append}
use kubernetes_redis_operato.Redis.Migrate.{migrating}
use kubernetes_redis_operato.Redis.Chain.{Chain}

-- 1 for a `CLUSTER SETSLOT … MIGRATING`.
abbrev pub opening : Command → ℕ
opening (Command.cluster_set_slot addr slot kind id) = if str_eq kind migrating then 1 else 0
opening _ = 0

unfoldable pub openings : List Command → ℕ
unfolding str_eq
openings [] = 0
openings (e ∷ es) = opening e + openings es

openings-append : (es fs : List Command) → openings (es ++ fs) ≡ openings es + openings fs
unfolding openings
openings-append [] fs = omega arith
openings-append (e ∷ es) fs = rw (openings-append es fs) (omega arith)

-- A command that sets the state of a slot does so for one that satisfies `Q`.
abbrev pub About : (ℤ → Type 0) → Command → Type 0
About Q (Command.cluster_set_slot addr slot kind id) = Q slot
About Q _ = Unit

-- The same, and it does not open the slot.
abbrev pub Still : (ℤ → Type 0) → Command → Type 0
Still Q (Command.cluster_set_slot addr slot kind id) = Q slot × (str_eq kind migrating ≡ false)
Still Q _ = Unit

abbrev pub LimitedAt : {A : Type 0} → (ℤ → Type 0) → ℕ → Result A × Log → Log → Type 0
LimitedAt Q n r l = (es : List Command) × (r.1 ≡ emit es l) × All (About Q) es × (openings es ≤ n)

-- A computation that is about slots that satisfy `Q` and opens at most `n`.
abbrev pub Limited : (ℤ → Type 0) → ℕ → Type 0 → Type 0
Limited Q n A = (m : M A) × ((l : Log) → LimitedAt Q n (m l) l)

Still-openings :
    (Q : ℤ → Type 0) (es : List Command) → All (Still Q) es → All (About Q) es × (openings es ≡ 0)
unfolding openings
Still-openings Q [] h = (tt, refl)
Still-openings Q (Command.cluster_set_slot addr slot kind id ∷ es) h =
    let (about, closed) = Still-openings Q es h.1 in ((h.0.0, about), rw (h.0.1, closed) refl)
Still-openings Q (_ ∷ es) h =
    let (about, closed) = Still-openings Q es h.1 in ((tt, about), rw closed refl)

pub openings-nil : openings [] ≤ 0
unfolding openings
openings-nil = omega arith

module _ {Q : ℤ → Type 0} where
  pub Still-LimitedAt : {A : Type 0} (x : Chain (Still Q) A) (l : Log) → LimitedAt Q 0 (x.0 l) l
  Still-LimitedAt x l =
      let (es, q, p) = x.1 l in
      let (about, closed) = Still-openings Q es p in (es, q, about, rw closed (omega arith))

  abbrev pub held : {A : Type 0} → Chain (Still Q) A → Limited Q 0 A
  held x = (x.0, Still-LimitedAt x)

  pub more :
      {A : Type 0} (n k : ℕ) → n ≤ k → (x : Limited Q n A) → (l : Log) → LimitedAt Q k (x.0 l) l
  more n k h x l = let (es, q, p, few) = x.1 l in (es, q, p, omega arith)

  pub after :
      {A B : Type 0} (j k : ℕ) (r : Result A × Log) (f : A → Limited Q k B) (l : Log)
      → LimitedAt Q j r l
      → LimitedAt Q (j + k) (and_then r (λ a. (f a).0)) l
  after j k (Result.ok a, l') f l (es, q, p, few) =
      let (fs, q', p', few') = (f a).1 l' in
      (
        es ++ fs,
        q' ∙ ap (emit fs) q ∙ sym (emit-append es fs l),
        All-append (About Q) es fs p p',
        rw (openings-append es fs) (omega arith),
      )
  after j k (Result.err e, l') f l (es, q, p, few) = (es, q, p, omega arith)
  after j k (Result.halt h, l') f l (es, q, p, few) = (es, q, p, omega arith)

  -- One step, and what follows it.
  abbrev pub step :
      {A B : Type 0} {j k : ℕ} → Limited Q j A → (A → Limited Q k B) → Limited Q (j + k) B
  step {j = j} {k = k} x f = (x.0 >>= (λ a. (f a).0), λ l. after j k (x.0 l) f l (x.1 l))

  abbrev pub none_opened : {A : Type 0} → A → Limited Q 0 A
  none_opened a = (pure a, λ l. ([], refl, tt, openings-nil))
