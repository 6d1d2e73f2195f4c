-- ===== src/Controller/Reconcile/Live.antt =====
-- What a computation issues, that it comes to an end without a halt, and what it then returns. A chain
-- of steps is built with its proof, in the order of the code.
use kubernetes_redis_operato.Prelude.{
  Bool, true, false, List, [], ◌∷◌, Option, none, some, ◌⊎◌, inl, inr, if◌then◌else◌, zero, suc,
  ◌≡◌, refl,
}
use kubernetes_redis_operato.Go.Text.{Str}
use kubernetes_redis_operato.Api.Types.{Phase}
use kubernetes_redis_operato.Api.Objects.{Meta}
use kubernetes_redis_operato.Redis.Effect.{
  fail, answered, Error, Result, Command, Log, M, pure, call, and_then, caught, attempt, for_each,
  ◌>>=◌, ◌>>◌,
}
use kubernetes_redis_operato.Redis.Loops.{
  IssuesAt, Issues-pure, Issues-call, Issues-attempt, Issues->>=,
}
use kubernetes_redis_operato.Redis.Client.{Runtime}
use kubernetes_redis_operato.Resources.Object.{Resource, ConfigMap}
use kubernetes_redis_operato.Resources.Config.{keys, Visit, config_data_hash}
use kubernetes_redis_operato.Controller.Kube.{Kube, Requeue, update_object, apply}
use kubernetes_redis_operato.Controller.Reconcile.{
  visiting, handle_failure, apply_all, apply_monitor, reconcile_object,
}

-- A value that satisfies `Q`, or an error; not a halt.
abbrev pub Yields : {A : Type 0} → (A → Type 0) → Result A → Type 0
Yields Q (Result.ok a) = Q a
Yields Q (Result.err e) = Unit
Yields Q (Result.halt h) = ⊥

abbrev pub Any : {A : Type 0} → A → Type 0
Any a = Unit

-- The object is looked at again.
abbrev pub IsLater : Requeue → Type 0
IsLater Requeue.done = ⊥
IsLater Requeue.again = Unit
IsLater (Requeue.after zero) = ⊥
IsLater (Requeue.after (suc n)) = Unit

-- A computation that only issues commands that satisfy `P` and yields what satisfies `Q`.
abbrev pub Keeps : {A : Type 0} → (Command → Type 0) → (A → Type 0) → M A → Type 0
Keeps P Q m = (l : Log) → IssuesAt P m l × Yields Q (m l).0

abbrev pub Runs : (Command → Type 0) → (A : Type 0) → (A → Type 0) → Type 0
Runs P A Q = (m : M A) × Keeps P Q m

pub answered-Yields : {A : Type 0} (x : Error ⊎ A) → Yields Any (answered x)
answered-Yields (inl e) = tt
answered-Yields (inr a) = tt

pub caught-Yields : {A : Type 0} (r : Result A × Log) → Yields Any r.0 → Yields Any (caught r).0
caught-Yields (Result.ok a, l) h = tt
caught-Yields (Result.err e, l) h = tt
caught-Yields (Result.halt x, l) h = h

pub and_then-Yields :
    {A B : Type 0} (Q : B → Type 0) (r : Result A × Log) (f : A → M B)
    → Yields Any r.0
    → ((a : A) (l : Log) → Yields Q (f a l).0)
    → Yields Q (and_then r f).0
and_then-Yields Q (Result.ok a, l) f h k = k a l
and_then-Yields Q (Result.err e, l) f h k = tt
and_then-Yields Q (Result.halt x, l) f h k = h

module _ {P : Command → Type 0} where
  abbrev pub run_value : {A : Type 0} → A → Runs P A Any
  run_value a = (pure a, λ l. (Issues-pure P a l, tt))

  abbrev pub run_result : {A : Type 0} (Q : A → Type 0) (a : A) → Q a → Runs P A Q
  run_result Q a q = (pure a, λ l. (Issues-pure P a l, q))

  abbrev pub run_fail : {A : Type 0} {Q : A → Type 0} → Error → Runs P A Q
  run_fail e = (fail e, λ l. (([], refl, tt), tt))

  abbrev pub run_call : {A : Type 0} (e : Command) (answer : Log → Error ⊎ A) → P e → Runs P A Any
  run_call e answer p =
      (call e answer, λ l. (Issues-call P e answer p l, answered-Yields (answer (e ∷ l))))

  abbrev pub run_attempt : {A : Type 0} → Runs P A Any → Runs P (Error ⊎ A) Any
  run_attempt (m, h) =
      (attempt m, λ l. (Issues-attempt P m (λ i. (h i).0) l, caught-Yields (m l) (h l).1))

  -- One step, and what follows it.
  abbrev pub step :
      {A B : Type 0} {Q : B → Type 0} → Runs P A Any → ((a : A) → Runs P B Q) → Runs P B Q
  step {Q = Q} (m, h) f = (
    m >>= (λ a. (f a).0),
    λ l. (
      Issues->>= P m (λ a. (f a).0) (λ i. (h i).0) (λ a i. ((f a).1 i).0) l,
      and_then-Yields Q (m l) (λ a. (f a).0) (h l).1 (λ a i. ((f a).1 i).1),
    ),
  )

  abbrev pub run_ignoring : {A : Type 0} → Runs P A Any → Runs P (Unit {0}) Any
  run_ignoring r = step (run_attempt r) (λ _. run_value tt)

  abbrev pub run_visiting : Runtime → Runs P Visit Any
  run_visiting rt =
      (visiting rt, λ l. (Issues-pure P {A = Visit} (λ m. rt.visit_keys l (keys m)) l, tt))

  pub Keeps-for_each :
      {A : Type 0} (body : A → M (Unit {0})) (xs : List A)
      → ((a : A) → Keeps P Any (body a))
      → Keeps P Any (for_each body xs)
  unfolding for_each
  Keeps-for_each body [] h = (run_value tt).1
  Keeps-for_each body (x ∷ xs) h =
      (step (body x, h x) (λ _. (for_each body xs, Keeps-for_each body xs h))).1

-- The phase that the rest of a reconciliation starts from.
abbrev pub started : Phase → Phase
started Phase.unset = Phase.initializing
started phase = phase

module _ {P : Command → Type 0} (k : Kube) where
  pub Keeps-handle_failure :
      {A : Type 0}
      → P (Command.update_status Phase.failed)
      → (r : Error ⊎ A) → Keeps P Any (handle_failure k r)
  Keeps-handle_failure p (inl e) =
      (step (run_ignoring (run_call (Command.update_status Phase.failed) k.update_status p))
        (λ _. run_fail e)).1
  Keeps-handle_failure p (inr a) = (run_value a).1

  abbrev pub run_or_failed :
      {A : Type 0} → P (Command.update_status Phase.failed) → Runs P A Any → Runs P A Any
  run_or_failed p r = step (run_attempt r) (λ x. (handle_failure k x, Keeps-handle_failure p x))

  module _ (applies : (r : Resource) → P (Command.apply r)) where
    abbrev pub run_apply : Resource → Runs P (Unit {0}) Any
    run_apply r = run_call (Command.apply r) k.apply (applies r)

    abbrev pub run_config_map : (Str → Str) → Visit → ConfigMap → Runs P Str Any
    run_config_map sha256_hex visit m =
        step (run_apply (Resource.config_map m))
          (λ _. run_value (config_data_hash visit sha256_hex m.contents))

    pub Keeps-apply_all : (rs : List Resource) → Keeps P Any (apply_all k rs)
    unfolding apply_all
    Keeps-apply_all rs = Keeps-for_each (apply k) rs (λ r. (run_apply r).1)

    pub Keeps-apply_monitor :
        (exporter : Option Bool) (monitor : Resource)
        → Keeps P Any (apply_monitor k exporter monitor)
    Keeps-apply_monitor none monitor = (run_value tt).1
    Keeps-apply_monitor (some false) monitor = (run_value tt).1
    Keeps-apply_monitor (some true) monitor = (run_ignoring (run_apply monitor)).1

module _ (k : Kube) where
  add_finalizer-Later :
      (l : Log) → Yields IsLater ((update_object k true >> pure Requeue.again) l).0
  add_finalizer-Later l =
      ((step {P = Any} (run_call (Command.update_object true) k.update tt)
          (λ _. run_result IsLater Requeue.again tt)).1
        l).1

  -- What holds of the rest of a reconciliation, and of a requeue after adding the finalizer.
  module _ (C : Result Requeue → Type 0)
      (adds : (l : Log) → C ((update_object k true >> pure Requeue.again) l).0) where
    kept_branches :
        (deleting finalizer : Bool) (deletion live : M Requeue)
        → deleting ≡ false
        → ((l : Log) → C (live l).0)
        → (l : Log)
        → C
            ((if deleting
                then deletion
                else if finalizer
                then live
                else (update_object k true >> pure Requeue.again))
              l).0
    kept_branches true finalizer deletion live here h = cc
    kept_branches false true deletion live here h = h
    kept_branches false false deletion live here h = adds

    -- An object that is read and is not being deleted.
    pub reconcile_object-kept :
        {Obj : Type 0} (fetch : Log → Error ⊎ (Meta × Obj)) (deletion live : Meta → Obj → M Requeue)
        → ((m : Meta) (o : Obj) (l : Log) → C (live m o l).0)
        → (l : Log) (m : Meta) (o : Obj) → fetch (Command.get_object ∷ l) ≡ inr (m, o)
        → m.deleting ≡ false
        → C (reconcile_object k fetch deletion live l).0
    reconcile_object-kept fetch deletion live h l m o read here = rw read (
        kept_branches m.deleting m.finalizer (deletion m o) (live m o) here (h m o)
          (Command.get_object ∷ l))

  pub reconcile_object-Later :
      {Obj : Type 0} (fetch : Log → Error ⊎ (Meta × Obj)) (deletion live : Meta → Obj → M Requeue)
      → ((m : Meta) (o : Obj) (l : Log) → Yields IsLater (live m o l).0)
      → (l : Log) (m : Meta) (o : Obj) → fetch (Command.get_object ∷ l) ≡ inr (m, o)
      → m.deleting ≡ false
      → Yields IsLater (reconcile_object k fetch deletion live l).0
  reconcile_object-Later = reconcile_object-kept (Yields IsLater) add_finalizer-Later
