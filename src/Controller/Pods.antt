-- ===== src/Controller/Pods.antt =====
-- The pods that the controllers count.
use kubernetes_redis_operato.Prelude.{
  zero, ℕ, suc, ◌&&◌, Bool, false, true, List, [], ◌∷◌, inl, inr, if◌then◌else◌,
}
use kubernetes_redis_operato.Prelude.Int.{ℤ, pos, ltb_ℤ}
use kubernetes_redis_operato.Go.Text.{Str, codes, str_eq}
use kubernetes_redis_operato.Go.Word.{int32}
use kubernetes_redis_operato.Controller.Kube.{Kube, Pod, list_pods}
use kubernetes_redis_operato.Redis.Effect.{M, pure, attempt, ◌>>=◌}
use kubernetes_redis_operato.Api.Objects.{RedisCluster}
use kubernetes_redis_operato.Resources.Labels.{component_master, component_replica}
use kubernetes_redis_operato.Controller.Names.{total_replicas}

abbrev is_ready : Str × Str → Bool
is_ready (type, status) = str_eq type (codes "Ready") && str_eq status (codes "True")

unfoldable pub count_conditions : ℕ → List (Str × Str) → ℕ
unfolding str_eq
count_conditions n [] = n
count_conditions n (x ∷ xs) = count_conditions (if is_ready x then suc n else n) xs

-- `countReadyPods`
unfoldable pub count_ready_from : ℕ → List Pod → ℕ
unfolding count_conditions
count_ready_from n [] = n
count_ready_from n (p ∷ ps) = count_ready_from (count_conditions n p.conditions) ps

unfoldable pub count_ready_pods : List Pod → ℤ
unfolding count_ready_from int32
count_ready_pods ps = int32 (pos (count_ready_from 0 ps))

module _ (k : Kube) where
  -- At least `n` pods of the component are ready; an error counts as a no.
  unfoldable pub enough : Str → ℤ → M Bool
  unfolding count_ready_pods
  enough component n = do
    r ← attempt (list_pods k component)
    pure (elim r [ inl _ ↦ false | inr ps ↦ if ltb_ℤ (count_ready_pods ps) n then false else true ])

  unfoldable pub all_master_pods_ready : RedisCluster → M Bool
  unfolding enough
  all_master_pods_ready rc = enough component_master rc.spec.masters

  abbrev replicas_ready : ℤ → ℤ → M Bool
  replicas_ready (pos zero) total = pure true
  replicas_ready _ total = enough component_replica total

  unfoldable pub all_pods_ready : RedisCluster → M Bool
  unfolding all_master_pods_ready total_replicas
  all_pods_ready rc = do
    masters ← all_master_pods_ready rc
    if masters
        then replicas_ready rc.spec.replicas_per_master (total_replicas rc.spec)
        else pure false
