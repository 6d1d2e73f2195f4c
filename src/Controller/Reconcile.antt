-- ===== src/Controller/Reconcile.antt =====
-- What the `doReconcile` of the three controllers have in common. The custom resource that `Get`
-- returns is a parameter, as all answers are.
pub mod Live
pub mod Known
pub mod Phases
pub mod History
pub mod Claims
use kubernetes_redis_operato.Prelude.{
  Bool, true, false, List, [], ◌∷◌, Option, none, some, ◌⊎◌, inl, inr, if◌then◌else◌,
}
use kubernetes_redis_operato.Go.Text.{Str}
use kubernetes_redis_operato.Go.Map.{Map}
use kubernetes_redis_operato.Api.Types.{Phase, StorageSpec}
use kubernetes_redis_operato.Api.Objects.{Meta}
use kubernetes_redis_operato.Redis.Effect.{
  Error, Command, Log, M, pure, fail, call, attempt, ignoring, for_each, ◌>>=◌, ◌>>◌,
}
use kubernetes_redis_operato.Redis.Client.{Runtime}
use kubernetes_redis_operato.Resources.Object.{Resource, ConfigMap}
use kubernetes_redis_operato.Resources.Config.{Visit, keys, config_data_hash}
use kubernetes_redis_operato.Controller.Kube.{
  Kube, Requeue, update_object, update_status, apply, list_claims, delete_claim,
}

-- `x != nil && *x`
abbrev pub is_on : Option Bool → Bool
is_on none = false
is_on (some b) = b

-- The order in which `range` visits a map from here on.
abbrev pub visiting : Runtime → M Visit
visiting rt l = pure (λ m. rt.visit_keys l (keys m)) l

module _ (k : Kube) where
  -- Reading the object, and what is done to one that is gone, is being deleted, has no finalizer yet,
  -- or is to be reconciled.
  abbrev pub reconcile_object :
      {Obj : Type 0}
      → (Log → Error ⊎ (Meta × Obj))
      → (Meta → Obj → M Requeue)
      → (Meta → Obj → M Requeue)
      → M Requeue
  reconcile_object fetch deletion live = do
    r ← attempt (call Command.get_object fetch)
    elim r [
      | inl e ↦ if k.is_not_found e then pure Requeue.done else fail e
      | inr (m, o) ↦
          if m.deleting
          then deletion m o
          else if m.finalizer
          then live m o
          else update_object k true >> pure Requeue.again
    ]

  -- `if Status.Phase == ""`, and what follows with the phase in memory.
  abbrev pub starting : {A : Type 0} → Phase → (Phase → M A) → M A
  starting Phase.unset next = update_status k Phase.initializing >> next Phase.initializing
  starting phase next = next phase

  abbrev pub handle_failure : {A : Type 0} → Error ⊎ A → M A
  handle_failure (inl e) = ignoring (update_status k Phase.failed) >> fail e
  handle_failure (inr a) = pure a

  -- The phase is set to Failed if the configuration cannot be written.
  abbrev pub or_failed : {A : Type 0} → M A → M A
  or_failed m = attempt m >>= handle_failure

  -- Writes a configuration, and returns the hash of its contents.
  abbrev pub apply_config_map : (Str → Str) → Visit → ConfigMap → M Str
  apply_config_map sha256_hex visit m = do
    apply k (Resource.config_map m)
    pure (config_data_hash visit sha256_hex m.contents)

  unfoldable pub apply_all : List Resource → M (Unit {0})
  unfolding for_each
  apply_all = for_each (apply k)

  -- Only if there is an exporter; the error is logged.
  abbrev pub when_exporting : Option Bool → M (Unit {0}) → M (Unit {0})
  when_exporting exporter m = if is_on exporter then ignoring m else pure tt

  abbrev pub apply_monitor : Option Bool → Resource → M (Unit {0})
  apply_monitor exporter monitor = when_exporting exporter (apply k monitor)

  -- A claim that is gone already is no error.
  abbrev pub delete_one : Str → M (Unit {0})
  delete_one claim = do
    r ← attempt (delete_claim k claim)
    elim r [ inl e ↦ if k.is_not_found e then pure tt else fail e | inr _ ↦ pure tt ]

  unfoldable pub delete_all : List Str → M (Unit {0})
  unfolding for_each
  delete_all = for_each delete_one

  -- The claims that have the labels; if they cannot be listed, none is deleted.
  unfoldable pub delete_listed : Map Str → M (Unit {0})
  unfolding delete_all
  delete_listed labels = do
    r ← attempt (list_claims k labels)
    elim r [ inl _ ↦ pure tt | inr claims ↦ delete_all claims ]

  abbrev pub unless_kept : Option StorageSpec → M (Unit {0}) → M (Unit {0})
  unless_kept none m = pure tt
  unless_kept (some s) m = if s.keep_after_deletion then pure tt else m

  -- Removes the finalizer.
  abbrev pub finish_deletion : M Requeue
  finish_deletion = update_object k false >> pure Requeue.done
