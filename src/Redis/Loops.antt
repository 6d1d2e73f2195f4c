-- ===== src/Redis/Loops.antt =====
-- Rules for the computations of internal/redis: which commands they issue, and what a loop does.
use mathlib.Core.List.{flat_map}
use mathlib.Core.Path.{subst}
use kubernetes_redis_operato.Prelude.{◌≡◌, refl, sym, ap, ◌∙◌, ◌⊎◌, inl, inr, List, [], ◌∷◌, ◌++◌}
use kubernetes_redis_operato.Redis.Effect.{
  Halt, caught, rewrap, Error, Result, Command, Log, M, pure, call, emit, and_then, attempt,
  ignoring, wrapping, for_each, answer_cases, ◌>>=◌,
}

abbrev pub All {ℓ κ} : {A : Type ℓ} → (A → Type κ) → List A → Type κ
All P [] = Unit
All P (x ∷ xs) = P x × All P xs

pub All-append {ℓ κ} :
    {A : Type ℓ} (P : A → Type κ) (xs ys : List A) → All P xs → All P ys → All P (xs ++ ys)
All-append P [] ys hx hy = hy
All-append P (x ∷ xs) ys hx hy = (hx.0, All-append P xs ys hx.1 hy)

pub All-map {ℓ κ} :
    {A : Type ℓ} {P Q : A → Type κ} (xs : List A) → ((x : A) → P x → Q x) → All P xs → All Q xs
All-map [] f h = tt
All-map (x ∷ xs) f h = (f x h.0, All-map xs f h.1)

pub and_then-pure :
    {A B C : Type 0} (x : Result A × Log) (b : B) (f : B → M C)
    → and_then (and_then x (λ _. pure b)) f ≡ and_then x (λ _. f b)
and_then-pure (Result.ok a, l) b f = refl
and_then-pure (Result.err e, l) b f = refl
and_then-pure (Result.halt h, l) b f = refl

pub emit-append : (es fs : List Command) (l : Log) → emit (es ++ fs) l ≡ emit fs (emit es l)
emit-append [] fs l = refl
emit-append (e ∷ es) fs l = emit-append es fs (e ∷ l)

-- From the log `l`, the computation only issues commands that satisfy `P`.
abbrev pub IssuesAt : {A : Type 0} → (Command → Type 0) → M A → Log → Type 0
IssuesAt P m l = (es : List Command) × ((m l).1 ≡ emit es l) × All P es

abbrev pub Issues : {A : Type 0} → (Command → Type 0) → M A → Type 0
Issues P m = (l : Log) → IssuesAt P m l

pub rewrap-log : {A : Type 0} (f : Error → Error) (r : Result A × Log) → (rewrap f r).1 ≡ r.1
rewrap-log f (Result.ok a, l) = refl
rewrap-log f (Result.err e, l) = refl
rewrap-log f (Result.halt h, l) = refl

pub caught-log : {A : Type 0} (r : Result A × Log) → (caught r).1 ≡ r.1
caught-log (Result.ok a, l) = refl
caught-log (Result.err e, l) = refl
caught-log (Result.halt h, l) = refl

module _ (P : Command → Type 0) where
  pub Issues-pure : {A : Type 0} (a : A) → Issues P (pure a)
  Issues-pure a l = ([], refl, tt)

  pub Issues-call :
      {A : Type 0} (e : Command) (answer : Log → Error ⊎ A) → P e → Issues P (call e answer)
  Issues-call e answer p l = (e ∷ [], refl, (p, tt))

  pub Issues-wrapping :
      {A : Type 0} (f : Error → Error) (m : M A) → Issues P m → Issues P (wrapping f m)
  Issues-wrapping f m h l = let (es, q, p) = h l in (es, rewrap-log f (m l) ∙ q, p)

  pub Issues-attempt : {A : Type 0} (m : M A) → Issues P m → Issues P (attempt m)
  Issues-attempt m h l = let (es, q, p) = h l in (es, caught-log (m l) ∙ q, p)

  and_then-IssuesAt :
      {A B : Type 0} (r : Result A × Log) (f : A → M B) (es : List Command) (l : Log)
      → r.1 ≡ emit es l
      → All P es
      → ((a : A) → Issues P (f a))
      → (fs : List Command) × ((and_then r f).1 ≡ emit fs l) × All P fs
  and_then-IssuesAt (Result.ok a, l') f es l q p h =
      let (fs, q', p') = h a l' in
      (es ++ fs, q' ∙ ap (emit fs) q ∙ sym (emit-append es fs l), All-append P es fs p p')
  and_then-IssuesAt (Result.err e, l') f es l q p h = (es, q, p)
  and_then-IssuesAt (Result.halt e, l') f es l q p h = (es, q, p)

  pub Issues->>= :
      {A B : Type 0} (m : M A) (f : A → M B)
      → Issues P m
      → ((a : A) → Issues P (f a))
      → Issues P (m >>= f)
  Issues->>= m f hm hf l = let (es, q, p) = hm l in and_then-IssuesAt (m l) f es l q p hf

  pub Issues-ignoring : {A : Type 0} (m : M A) → Issues P m → Issues P (ignoring m)
  Issues-ignoring m h = Issues->>= (attempt m) _ (Issues-attempt m h) (λ _. Issues-pure tt)

  pub Issues-for_each :
      {A : Type 0} (body : A → M (Unit {0})) (xs : List A)
      → ((a : A) → Issues P (body a))
      → Issues P (for_each body xs)
  unfolding for_each
  Issues-for_each body [] h = Issues-pure tt
  Issues-for_each body (x ∷ xs) h =
      Issues->>= (body x) (λ _. for_each body xs) (h x) (λ _. Issues-for_each body xs h)

  -- The same, where the body is known only at the listed values.
  pub Issues-for_all :
      {A : Type 0} (body : A → M (Unit {0})) (xs : List A)
      → All (λ a. Issues P (body a)) xs
      → Issues P (for_each body xs)
  unfolding for_each
  Issues-for_all body [] h = Issues-pure tt
  Issues-for_all body (x ∷ xs) h =
      Issues->>= (body x) (λ _. for_each body xs) h.0 (λ _. Issues-for_all body xs h.1)

pub Issues-weaken :
    {A : Type 0} {P Q : Command → Type 0}
    → ((e : Command) → P e → Q e)
    → (m : M A) → Issues P m
    → Issues Q m
Issues-weaken f m h l = let (es, q, p) = h l in (es, q, All-map es f p)

-- A loop whose body always succeeds, after commands that do not depend on the answers.
pub for_each-emit :
    {A : Type 0} (body : A → M (Unit {0})) (f : A → List Command)
    → ((a : A) (l : Log) → body a l ≡ (Result.ok tt, emit (f a) l))
    → (xs : List A) (l : Log) → for_each body xs l ≡ (Result.ok tt, emit (flat_map f xs) l)
unfolding for_each flat_map
for_each-emit body f h [] l = refl
for_each-emit body f h (x ∷ xs) l =
    rw (h x l) (for_each-emit body f h xs (emit (f x) l) ∙ rw (emit-append (f x) (flat_map f xs) l))

-- A refusal is dropped, so an ignored call always succeeds.
pub ignoring-call :
    {A : Type 0} (e : Command) (answer : Log → Error ⊎ A) (l : Log)
    → ignoring (call e answer) l ≡ (Result.ok tt, e ∷ l)
ignoring-call e answer l = elim (answer_cases (answer (e ∷ l))) [
  | inl (_, x) ↦ rw x
  | inr (_, x) ↦ rw x
]

-- Inversion of a bind that succeeds.
pub and_then-eq-ok :
    {A B : Type 0} (r : Result A × Log) (f : A → M B) {b : B}
    → (and_then r f).0 ≡ Result.ok b
    → (a : A) × (l : Log) × (r ≡ (Result.ok a, l)) × ((f a l).0 ≡ Result.ok b)
and_then-eq-ok (Result.ok a, l) f h = (a, l, refl, h)
and_then-eq-ok (Result.err e, l) f h = cc
and_then-eq-ok (Result.halt x, l) f h = cc

pub rewrap-eq-ok :
    {A : Type 0} (g : Error → Error) (r : Result A × Log) {a : A}
    → (rewrap g r).0 ≡ Result.ok a
    → r.0 ≡ Result.ok a
rewrap-eq-ok g (Result.ok a, l) h = h
rewrap-eq-ok g (Result.err e, l) h = cc
rewrap-eq-ok g (Result.halt x, l) h = cc

-- If the result is an error, it and the log satisfy `Q`.
abbrev pub FailsWith : {A : Type 0} → (Error → Log → Type 0) → Result A × Log → Type 0
FailsWith Q r = (e : Error) → r.0 ≡ Result.err e → Q e r.1

pub FailsWith-and_then :
    {A B : Type 0} (Q : Error → Log → Type 0) (r : Result A × Log) (f : A → M B)
    → FailsWith Q r
    → ((a : A) (l : Log) → FailsWith Q (f a l))
    → FailsWith Q (and_then r f)
FailsWith-and_then Q (Result.ok a, l) f h k = k a l
FailsWith-and_then Q (Result.err x, l) f h k = λ e p. h e (cc)
FailsWith-and_then Q (Result.halt x, l) f h k = λ e p. cc

module _ {A : Type 0} (Q : Error → Log → Type 0) where
  pub FailsWith-err : (e : Error) (l : Log) → Q e l → FailsWith {A = A} Q (Result.err e, l)
  FailsWith-err e l q e' p = let same : e ≡ e' = cc in subst (λ x. Q x l) same q

  pub FailsWith-ok : (a : A) (l : Log) → FailsWith Q (Result.ok a, l)
  FailsWith-ok a l e p = cc

  pub FailsWith-halt : (h : Halt) (l : Log) → FailsWith {A = A} Q (Result.halt h, l)
  FailsWith-halt h l e p = cc
