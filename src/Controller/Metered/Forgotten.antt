-- ===== src/Controller/Metered/Forgotten.antt =====
-- The gauges of a cluster that is deleted.
use kubernetes_redis_operato.Prelude.{
  ℕ, ◌≡◌, refl, ◌∙◌, ap, ◌&&◌, Option, none, some, ◌∷◌, List, [], ◌⊎◌, inl, inr, sym, Bool, true,
  false, if◌then◌else◌,
}
use kubernetes_redis_operato.Go.Text.{Str}
use kubernetes_redis_operato.Api.Objects.{Meta, RedisCluster}
use kubernetes_redis_operato.Redis.Effect.{Error, Result, Command, Log, M, answered, caught}
use kubernetes_redis_operato.Redis.Client.{RedisClient, Runtime}
use kubernetes_redis_operato.Resources.Labels.{label_cluster}
use kubernetes_redis_operato.Metrics.Vectors.{GaugeVec, Registry, IsRegistry, labels_eq}
use kubernetes_redis_operato.Metrics.Recorder.{
  Kind, cluster_labels, record_reconcile, delete_cluster_metrics,
}
use kubernetes_redis_operato.Metrics.Gauges.{is_of_cluster, gauge-delete_cluster_metrics}
use kubernetes_redis_operato.Controller.Kube.{Kube, Requeue}
use kubernetes_redis_operato.Controller.Reconcile.{delete_listed, unless_kept, finish_deletion}
use kubernetes_redis_operato.Controller.Metered.{
  Metered, beside, quietly, recording, and_after, ◌>>◌, recorded, delete_metered_cluster,
  metered_object, live_metered_cluster, reconcile_cluster_entry,
}
use kubernetes_redis_operato.Controller.Metered.Runs.{state}

module _ {S : Type 0} (r : Registry S) (h : IsRegistry r) where
  gauge-record_reconcile :
      (g : GaugeVec) (ls : List Str) (kind : Kind) (elapsed : ℕ) (err : Option Error) (s : S)
      → r.gauge g ls (record_reconcile r kind elapsed err s) ≡ r.gauge g ls s
  unfolding record_reconcile
  gauge-record_reconcile g ls kind elapsed none s = simp (h.gauge-observe, h.gauge-inc)
  gauge-record_reconcile g ls kind elapsed (some e) s = simp (h.gauge-observe, h.gauge-inc)

  gauge-recorded :
      (g : GaugeVec) (ls : List Str) (kind : Kind) (since : Log → ℕ) (x : Result Requeue × Log × S)
      → r.gauge g ls (state (recorded r kind since x)) ≡ r.gauge g ls (state x)
  gauge-recorded g ls kind since (Result.ok q, l, s) =
      gauge-record_reconcile g ls kind (since l) none s
  gauge-recorded g ls kind since (Result.err e, l, s) =
      gauge-record_reconcile g ls kind (since l) (some e) s
  gauge-recorded g ls kind since (Result.halt x, l, s) = refl

recorded-ok :
    {S : Type 0} (r : Registry S) (kind : Kind) (since : Log → ℕ) (x : Result Requeue × Log × S)
    (q : Requeue)
    → (recorded r kind since x).0 ≡ Result.ok q
    → x.0 ≡ Result.ok q
recorded-ok r kind since (Result.ok p, l, s) q e = e
recorded-ok r kind since (Result.err x, l, s) q e = cc
recorded-ok r kind since (Result.halt x, l, s) q e = cc

-- The registry is updated if what stands before the update returns.
state-recording :
    {S A B : Type 0} (x : Result A × Log) (f : S → S) (last : M B) (s : S) (b : B)
    → (and_after (beside s x) (λ _. recording f >> quietly last)).0 ≡ Result.ok b
    → state (and_after (beside s x) (λ _. recording f >> quietly last)) ≡ f s
state-recording (Result.ok a, l) f last s b e = refl
state-recording (Result.err x, l) f last s b e = cc
state-recording (Result.halt x, l) f last s b e = cc

chosen : {A : Type 0} (b : Bool) (x y : A) → b ≡ true → (if b then x else y) ≡ x
chosen true x y e = refl
chosen false x y e = cc

-- An object that was read is handed on.
and_after-answer :
    {S A B : Type 0} (x : Error ⊎ A) (a : A) (l : Log) (s : S) (f : Error ⊎ A → Metered S B)
    → x ≡ inr a
    → and_after (beside s (caught (answered x, l))) f ≡ f (inr a) s l
and_after-answer (inl e) a l s f h = cc
and_after-answer (inr b) a l s f h = ap (λ y. f y s l) h

module _ {S : Type 0} (r : Registry S) (h : IsRegistry r) (k : Kube) (rt : Runtime)
    (c : RedisClient) (sha256_hex : Str → Str) (fuel : ℕ) (since took : Log → ℕ) where
  -- What such a run comes to, before it is counted.
  deletion : RedisCluster → S → Log → Result Requeue × Log × S
  deletion rc s l =
      and_after
        (beside s
          (unless_kept k rc.spec.storage (delete_listed k ((label_cluster, rc.name) ∷ [])) l))
        (λ _.
          recording (delete_cluster_metrics r rc.name rc.namespace) >> quietly (finish_deletion k))

  reconcile_cluster_entry-deletion :
      (fetch : Log → Error ⊎ (Meta × RedisCluster)) (s : S) (l : Log) (m : Meta) (rc : RedisCluster)
      → fetch (Command.get_object ∷ l) ≡ inr (m, rc)
      → m.deleting ≡ true
      → m.finalizer ≡ true
      → reconcile_cluster_entry r k rt c sha256_hex fuel since took fetch s l
        ≡ recorded r Kind.redis_cluster since (deletion rc s (Command.get_object ∷ l))
  unfolding reconcile_cluster_entry delete_metered_cluster deletion
  reconcile_cluster_entry-deletion fetch s l m rc e d f =
      let live = live_metered_cluster r k rt c sha256_hex fuel since took in
      let l' = Command.get_object ∷ l in
      ap (recorded r Kind.redis_cluster since) (
        and_after-answer (fetch l') (m, rc) l' s
          (metered_object r k rt c sha256_hex fuel since live) e
        ∙ ap (λ (run : Metered S Requeue). run s l')
            (chosen m.deleting (delete_metered_cluster r k m rc) _ d)
        ∙ ap (λ (run : Metered S Requeue). run s l') (chosen m.finalizer _ _ f))

  deletion-recorded :
      (rc : RedisCluster) (s : S) (l : Log) (q : Requeue) (g : GaugeVec) (ls : List Str)
      → (recorded r Kind.redis_cluster since (deletion rc s l)).0 ≡ Result.ok q
      → r.gauge g ls (state (recorded r Kind.redis_cluster since (deletion rc s l)))
        ≡ r.gauge g ls (delete_cluster_metrics r rc.name rc.namespace s)
  unfolding deletion
  deletion-recorded rc s l q g ls ran =
      gauge-recorded r h g ls Kind.redis_cluster since (deletion rc s l)
      ∙ ap (r.gauge g ls) (
          state-recording
            (unless_kept k rc.spec.storage (delete_listed k ((label_cluster, rc.name) ∷ [])) l)
            (delete_cluster_metrics r rc.name rc.namespace) (finish_deletion k) s q
            (recorded-ok r Kind.redis_cluster since (deletion rc s l) q ran))

  -- If a cluster that is being deleted and has the finalizer is reconciled without an error, none of
  -- the gauges of clusters has a series with its name and namespace afterwards, and every other
  -- series of a gauge is what it was.
  pub reconcile_cluster_entry-gauge :
      (fetch : Log → Error ⊎ (Meta × RedisCluster)) (s : S) (l : Log) (m : Meta) (rc : RedisCluster)
      (q : Requeue)
      → fetch (Command.get_object ∷ l) ≡ inr (m, rc)
      → m.deleting ≡ true
      → m.finalizer ≡ true
      → (reconcile_cluster_entry r k rt c sha256_hex fuel since took fetch s l).0 ≡ Result.ok q
      → (g : GaugeVec) (ls : List Str)
      → r.gauge g ls (state (reconcile_cluster_entry r k rt c sha256_hex fuel since took fetch s l))
        ≡ (if is_of_cluster g && labels_eq ls (cluster_labels rc.name rc.namespace)
            then none
            else r.gauge g ls s)
  reconcile_cluster_entry-gauge fetch s l m rc q e d f ran g ls =
      let run = reconcile_cluster_entry-deletion fetch s l m rc e d f in
      ap (λ x. r.gauge g ls (state x)) run
      ∙ deletion-recorded rc s (Command.get_object ∷ l) q g ls (sym (ap (λ x. x.0) run) ∙ ran)
      ∙ gauge-delete_cluster_metrics r h rc.name rc.namespace s g ls
