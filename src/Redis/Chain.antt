-- ===== src/Redis/Chain.antt =====
-- A chain of steps, built together with what it issues, in the order of the code.
use kubernetes_redis_operato.Prelude.{
  Bool, true, false, Option, none, some, [], ◌⊎◌, refl, if◌then◌else◌,
}
use kubernetes_redis_operato.Redis.Effect.{
  Error, Result, Command, Log, M, pure, call, wrapping, lift, attempt, ignoring, ◌>>=◌,
}
use kubernetes_redis_operato.Redis.Loops.{
  Issues, Issues-pure, Issues-call, Issues-wrapping, Issues-attempt, Issues-ignoring, Issues->>=,
}

-- A computation that only issues commands that satisfy `P`.
abbrev pub Chain : (Command → Type 0) → Type 0 → Type 0
Chain P A = (m : M A) × Issues P m

module _ {P : Command → Type 0} where
  abbrev pub bind : {A B : Type 0} → Chain P A → (A → Chain P B) → Chain P B
  bind x f = (x.0 >>= (λ a. (f a).0), Issues->>= P x.0 (λ a. (f a).0) x.1 (λ a. (f a).1))

  abbrev pub silent : {A : Type 0} → (Log → Result A) → Chain P A
  silent r = ((λ l. (r l, l)), λ l. ([], refl, tt))

  pub choose-Issues : {A : Type 0} (b : Bool) (x y : Chain P A) → Issues P (if b then x.0 else y.0)
  choose-Issues true x y = x.1
  choose-Issues false x y = y.1

  abbrev pub choose : {A : Type 0} → Bool → Chain P A → Chain P A → Chain P A
  choose b x y = (if b then x.0 else y.0, choose-Issues b x y)

  pub option-Issues :
      {A : Type 0} (o : Option A) (x : Chain P A)
      → Issues P (elim o as (λ _. M A) [ none ↦ x.0 | some a ↦ pure a ])
  option-Issues none x = x.1
  option-Issues (some a) x = Issues-pure P a

  abbrev pub wrapped : {A : Type 0} → (Error → Error) → Chain P A → Chain P A
  wrapped f x = (wrapping f x.0, Issues-wrapping P f x.0 x.1)

  abbrev pub attempted : {A : Type 0} → Chain P A → Chain P (Error ⊎ A)
  attempted x = (attempt x.0, Issues-attempt P x.0 x.1)

  abbrev pub ignored : {A : Type 0} → Chain P A → Chain P (Unit {0})
  ignored x = (ignoring x.0, Issues-ignoring P x.0 x.1)

  abbrev pub lifted : {A : Type 0} → Error ⊎ A → Chain P A
  lifted x = (lift x, λ l. ([], refl, tt))

  abbrev pub asked : {A : Type 0} (e : Command) → P e → (Log → Error ⊎ A) → Chain P A
  asked e h answer = (call e answer, Issues-call P e answer h)
