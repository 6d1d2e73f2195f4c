-- ===== src/Controller/Reconcile/Known.antt =====
-- A chain of steps of which it is known what they return.
use kubernetes_redis_operato.Prelude.{◌≡◌, ap, sym, ◌∙◌, List, ◌++◌}
use kubernetes_redis_operato.Redis.Effect.{Result, Command, Log, M, emit, and_then, ◌>>=◌}
use kubernetes_redis_operato.Redis.Loops.{All, All-append, emit-append}
use kubernetes_redis_operato.Controller.Reconcile.Live.{Yields, Keeps}

module _ (P : Command → Type 0) where
  after :
      {A B : Type 0} (R : A → Type 0) (Q : B → Type 0) (r : Result A × Log) (f : A → M B)
      (es : List Command) (l : Log)
      → r.1 ≡ emit es l
      → All P es
      → Yields R r.0
      → ((a : A) → R a → Keeps P Q (f a))
      → ((fs : List Command) × ((and_then r f).1 ≡ emit fs l) × All P fs)
        × Yields Q (and_then r f).0
  after R Q (Result.ok a, l') f es l q p y h =
      let ((fs, q', p'), y') = h a y l' in
      ((es ++ fs, q' ∙ ap (emit fs) q ∙ sym (emit-append es fs l), All-append P es fs p p'), y')
  after R Q (Result.err e, l') f es l q p y h = ((es, q, p), tt)
  after R Q (Result.halt x, l') f es l q p y h = ((es, q, p), y)

  -- A step of which it is known what it returns, and what follows it.
  pub Keeps->>= :
      {A B : Type 0} (R : A → Type 0) (Q : B → Type 0) (m : M A) (f : A → M B)
      → Keeps P R m
      → ((a : A) → R a → Keeps P Q (f a))
      → Keeps P Q (m >>= f)
  Keeps->>= R Q m f hm hf l = let ((es, q, p), y) = hm l in after R Q (m l) f es l q p y hf
