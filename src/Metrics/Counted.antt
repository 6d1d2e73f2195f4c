-- ===== src/Metrics/Counted.antt =====
-- The counters of internal/metrics/recorder.go against the history of the calls.
use native.Mathlib.Nat.{add_assoc}
use kubernetes_redis_operato.Prelude.{
  ℕ, ◌+◌, ◌==◌, ◌≡◌, refl, Bool, true, false, Option, none, some, List, [], ◌∷◌, arith,
  if◌then◌else◌,
}
use kubernetes_redis_operato.Prelude.Int.{ℤ}
use kubernetes_redis_operato.Go.Text.{Str, str_eq}
use kubernetes_redis_operato.Redis.Effect.{Error}
use kubernetes_redis_operato.Metrics.Vectors.{
  CounterVec, HistogramVec, Registry, IsRegistry, labels_eq,
}
use kubernetes_redis_operato.Metrics.Recorder.{
  Kind, kind_text, success_labels, error_labels, record_reconcile, set_cluster_metrics,
  record_cluster_scaling, record_cluster_failover, delete_cluster_metrics,
}

-- A call of one of the functions, with its arguments.
pub data Activity : Type 0 where
  reconciled : Kind → ℕ → Option Error → Activity
  shown : Str → Str → Str → ℤ → ℤ → ℤ → ℤ → Activity
  scaled : Str → Str → Str → ℕ → Activity
  failed_over forgotten : Str → Str → Activity

-- The calls in their order.
unfoldable pub perform : {S : Type 0} → Registry S → Activity → S → S
unfolding record_reconcile set_cluster_metrics record_cluster_scaling record_cluster_failover
    delete_cluster_metrics
perform r (Activity.reconciled k elapsed err) s = record_reconcile r k elapsed err s
perform r (Activity.shown name namespace state slots nodes masters replicas) s =
    set_cluster_metrics r name namespace state slots nodes masters replicas s
perform r (Activity.scaled name namespace direction elapsed) s =
    record_cluster_scaling r name namespace direction elapsed s
perform r (Activity.failed_over name namespace) s = record_cluster_failover r name namespace s
perform r (Activity.forgotten name namespace) s = delete_cluster_metrics r name namespace s

unfoldable pub perform_all : {S : Type 0} → Registry S → List Activity → S → S
unfolding perform
perform_all r [] s = s
perform_all r (a ∷ rest) s = perform_all r rest (perform r a s)

abbrev pub kind_index : Kind → ℕ
kind_index Kind.redis = 0
kind_index Kind.redis_sentinel = 1
kind_index Kind.redis_cluster = 2

abbrev pub same_kind : Kind → Kind → Bool
same_kind a b = kind_index a == kind_index b

-- 1 for a result of the sort that is counted, and otherwise 0.
abbrev pub one_if : Bool → Option Error → ℕ
one_if true none = 1
one_if true (some e) = 0
one_if false none = 0
one_if false (some e) = 1

-- The runs of one kind among the calls, with an error or without.
abbrev pub of_kind : Kind → Bool → Activity → ℕ
of_kind k good (Activity.reconciled k' elapsed err) = if same_kind k k' then one_if good err else 0
of_kind k good _ = 0

abbrev pub runs : Kind → Bool → List Activity → ℕ
runs k good [] = 0
runs k good (a ∷ rest) = of_kind k good a + runs k good rest

str_eq-kind_text : (k j : Kind) → str_eq (kind_text k) (kind_text j) ≡ same_kind k j
unfolding str_eq
str_eq-kind_text Kind.redis Kind.redis = refl
str_eq-kind_text Kind.redis Kind.redis_sentinel = refl
str_eq-kind_text Kind.redis Kind.redis_cluster = refl
str_eq-kind_text Kind.redis_sentinel Kind.redis = refl
str_eq-kind_text Kind.redis_sentinel Kind.redis_sentinel = refl
str_eq-kind_text Kind.redis_sentinel Kind.redis_cluster = refl
str_eq-kind_text Kind.redis_cluster Kind.redis = refl
str_eq-kind_text Kind.redis_cluster Kind.redis_sentinel = refl
str_eq-kind_text Kind.redis_cluster Kind.redis_cluster = refl

success_labels_eq : (k j : Kind) → labels_eq (success_labels k) (success_labels j) ≡ same_kind k j
unfolding labels_eq
success_labels_eq k j = rw (str_eq-kind_text k j) (ground arith)

error_labels_eq : (k j : Kind) → labels_eq (error_labels k) (error_labels j) ≡ same_kind k j
unfolding labels_eq
error_labels_eq k j = rw (str_eq-kind_text k j) (ground arith)

mixed_labels :
    (k j : Kind)
    → (labels_eq (success_labels k) (error_labels j) ≡ false)
      × (labels_eq (error_labels k) (success_labels j) ≡ false)
unfolding labels_eq
mixed_labels k j = rw (str_eq-kind_text k j) (ground arith)

kind_labels_eq : (k j : Kind) → labels_eq (kind_text k ∷ []) (kind_text j ∷ []) ≡ same_kind k j
unfolding labels_eq
kind_labels_eq k j = rw (str_eq-kind_text k j) (ground arith)

same_kind_refl : (k : Kind) → same_kind k k ≡ true
same_kind_refl Kind.redis = refl
same_kind_refl Kind.redis_sentinel = refl
same_kind_refl Kind.redis_cluster = refl

-- A run is of one of the two sorts.
one_run :
    (b : Bool) (err : Option Error) (n good bad : ℕ)
    → n ≡ good + bad
    → n + (if b then 1 else 0)
      ≡ good + (if b then one_if true err else 0) + (bad + (if b then one_if false err else 0))
one_run false err n good bad e = omega arith
one_run true none n good bad e = omega arith
one_run true (some x) n good bad e = omega arith

-- What is exported for one kind: `good` runs without an error, `bad` ones with an error, and the
-- duration of each.
pub record IsCounted {S : Type 0} (r : Registry S) (k : Kind) (s : S) (good bad : ℕ) : Type 0 where
  pub succeeded : r.counter CounterVec.reconcile_total (success_labels k) s ≡ good
  pub failed : r.counter CounterVec.reconcile_total (error_labels k) s ≡ bad
  pub errors : r.counter CounterVec.reconcile_errors (error_labels k) s ≡ bad
  pub timed : r.observations HistogramVec.reconcile_duration (kind_text k ∷ []) s ≡ good + bad

module _ {S : Type 0} (r : Registry S) (h : IsRegistry r) (k : Kind) where
  record_reconcile-succeeded :
      (j : Kind) (elapsed : ℕ) (err : Option Error) (s : S)
      → r.counter CounterVec.reconcile_total (success_labels k) (record_reconcile r j elapsed err s)
        ≡ r.counter CounterVec.reconcile_total (success_labels k) s
          + (if same_kind k j then one_if true err else 0)
  unfolding record_reconcile
  record_reconcile-succeeded j elapsed none s =
      rw (h.counter-observe _ _ _ _ _ _, h.counter-inc _ _ _ _ _, success_labels_eq k j)
        (ground arith)
  record_reconcile-succeeded j elapsed (some e) s =
      rw
        (
          h.counter-observe _ _ _ _ _ _,
          h.counter-inc _ _ _ _ _,
          h.counter-inc _ _ _ _ _,
          (mixed_labels k j).0,
        )
        (ground arith)

  record_reconcile-failed :
      (j : Kind) (elapsed : ℕ) (err : Option Error) (s : S)
      → r.counter CounterVec.reconcile_total (error_labels k) (record_reconcile r j elapsed err s)
        ≡ r.counter CounterVec.reconcile_total (error_labels k) s
          + (if same_kind k j then one_if false err else 0)
  unfolding record_reconcile
  record_reconcile-failed j elapsed none s =
      rw (h.counter-observe _ _ _ _ _ _, h.counter-inc _ _ _ _ _, (mixed_labels k j).1)
        (ground arith)
  record_reconcile-failed j elapsed (some e) s =
      rw
        (
          h.counter-observe _ _ _ _ _ _,
          h.counter-inc _ _ _ _ _,
          h.counter-inc _ _ _ _ _,
          error_labels_eq k j,
        )
        (ground arith)

  record_reconcile-errors :
      (j : Kind) (elapsed : ℕ) (err : Option Error) (s : S)
      → r.counter CounterVec.reconcile_errors (error_labels k) (record_reconcile r j elapsed err s)
        ≡ r.counter CounterVec.reconcile_errors (error_labels k) s
          + (if same_kind k j then one_if false err else 0)
  unfolding record_reconcile
  record_reconcile-errors j elapsed none s =
      rw (h.counter-observe _ _ _ _ _ _, h.counter-inc _ _ _ _ _) (ground arith)
  record_reconcile-errors j elapsed (some e) s =
      rw
        (
          h.counter-observe _ _ _ _ _ _,
          h.counter-inc _ _ _ _ _,
          h.counter-inc _ _ _ _ _,
          error_labels_eq k j,
        )
        (ground arith)

  record_reconcile-timed :
      (j : Kind) (elapsed : ℕ) (err : Option Error) (s : S)
      → r.observations HistogramVec.reconcile_duration
          (kind_text k ∷ [])
          (record_reconcile r j elapsed err s)
        ≡ r.observations HistogramVec.reconcile_duration (kind_text k ∷ []) s
          + (if same_kind k j then 1 else 0)
  unfolding record_reconcile
  record_reconcile-timed j elapsed none s =
      rw (h.observations-observe _ _ _ _ _ _, h.observations-inc _ _ _ _ _, kind_labels_eq k j)
        (ground arith)
  record_reconcile-timed j elapsed (some e) s =
      rw
        (
          h.observations-observe _ _ _ _ _ _,
          h.observations-inc _ _ _ _ _,
          h.observations-inc _ _ _ _ _,
          kind_labels_eq k j,
        )
        (ground arith)

  -- A state in which the values are those of another one.
  kept :
      (s t : S) (good bad : ℕ)
      → r.counter CounterVec.reconcile_total (success_labels k) t
        ≡ r.counter CounterVec.reconcile_total (success_labels k) s
      → r.counter CounterVec.reconcile_total (error_labels k) t
        ≡ r.counter CounterVec.reconcile_total (error_labels k) s
      → r.counter CounterVec.reconcile_errors (error_labels k) t
        ≡ r.counter CounterVec.reconcile_errors (error_labels k) s
      → r.observations HistogramVec.reconcile_duration (kind_text k ∷ []) t
        ≡ r.observations HistogramVec.reconcile_duration (kind_text k ∷ []) s
      → IsCounted r k s good bad
      → IsCounted r k t (good + 0) (bad + 0)
  kept s t good bad a b c d v = record {
    succeeded = omega (arith, v.succeeded);
    failed = omega (arith, v.failed);
    errors = omega (arith, v.errors);
    timed = omega (arith, v.timed);
  }

  pub perform-IsCounted :
      (a : Activity) (s : S) (good bad : ℕ)
      → IsCounted r k s good bad
      → IsCounted r k (perform r a s) (good + of_kind k true a) (bad + of_kind k false a)
  unfolding perform set_cluster_metrics record_cluster_scaling record_cluster_failover
      delete_cluster_metrics
  perform-IsCounted (Activity.reconciled j elapsed err) s good bad v = record {
    succeeded = rw (record_reconcile-succeeded j elapsed err s) (omega (arith, v.succeeded));
    failed = rw (record_reconcile-failed j elapsed err s) (omega (arith, v.failed));
    errors = rw (record_reconcile-errors j elapsed err s) (omega (arith, v.errors));
    timed =
        rw (record_reconcile-timed j elapsed err s)
          (one_run (same_kind k j) err _ good bad v.timed);
  }
  perform-IsCounted (Activity.shown name namespace state slots nodes masters replicas) s good bad
        v =
      kept s _ good bad (simp (h.counter-set_gauge)) (simp (h.counter-set_gauge))
        (simp (h.counter-set_gauge)) (simp (h.observations-set_gauge)) v
  perform-IsCounted (Activity.scaled name namespace direction elapsed) s good bad v =
      kept s _ good bad (simp (h.counter-observe, h.counter-inc))
        (simp (h.counter-observe, h.counter-inc)) (simp (h.counter-observe, h.counter-inc))
        (simp (h.observations-observe, h.observations-inc)) v
  perform-IsCounted (Activity.failed_over name namespace) s good bad v =
      kept s _ good bad (simp (h.counter-inc)) (simp (h.counter-inc)) (simp (h.counter-inc))
        (simp (h.observations-inc)) v
  perform-IsCounted (Activity.forgotten name namespace) s good bad v =
      kept s _ good bad (simp (h.counter-delete)) (simp (h.counter-delete))
        (simp (h.counter-delete)) (simp (h.observations-delete)) v

  pub record_reconcile-IsCounted :
      (elapsed : ℕ) (err : Option Error) (s : S) (good bad : ℕ)
      → IsCounted r k s good bad
      → IsCounted r k
          (record_reconcile r k elapsed err s)
          (good + one_if true err)
          (bad + one_if false err)
  unfolding perform
  record_reconcile-IsCounted elapsed err s good bad v =
      rw (same_kind_refl k) at (perform-IsCounted (Activity.reconciled k elapsed err) s good bad v)

  -- Whatever the functions of the package are called for, and in whatever order, the counters of a
  -- kind stay what they were plus the number of its reconciliations without an error and with one; the
  -- counter of errors agrees with the result "error" of the counter of all, and each
  -- reconciliation has one duration.
  pub perform_all-IsCounted :
      (acts : List Activity) (s : S) (good bad : ℕ)
      → IsCounted r k s good bad
      → IsCounted r k (perform_all r acts s) (good + runs k true acts) (bad + runs k false acts)
  unfolding perform_all
  perform_all-IsCounted [] s good bad v = kept s s good bad refl refl refl refl v
  perform_all-IsCounted (a ∷ rest) s good bad v =
      let later =
        perform_all-IsCounted rest (perform r a s) (good + of_kind k true a)
          (bad + of_kind k false a) (perform-IsCounted a s good bad v) in
      rw
        (
          ← add_assoc good (of_kind k true a) (runs k true rest),
          ← add_assoc bad (of_kind k false a) (runs k false rest),
        )
        later
