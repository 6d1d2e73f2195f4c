-- ===== src/Controller/Status/Phases.antt =====
-- Which phases `updateClusterStatus` writes.
use kubernetes_redis_operato.Prelude.{◌⊎◌, inl, inr, ◌≡◌, List, ◌∷◌}
use kubernetes_redis_operato.Prelude.Int.{ℤ, ◌≤ℤ◌}
use kubernetes_redis_operato.Go.Text.{Str, codes}
use kubernetes_redis_operato.Api.Types.{RedisClusterSpec}
use kubernetes_redis_operato.Redis.Effect.{Error, Command, Log}
use kubernetes_redis_operato.Redis.Node.{ClusterInfo}
use kubernetes_redis_operato.Redis.Client.{RedisClient}
use kubernetes_redis_operato.Controller.Names.{total_replicas}
use kubernetes_redis_operato.Controller.Kube.{Kube, Pod, list_pods}
use kubernetes_redis_operato.Controller.Pods.{count_ready_pods}
use kubernetes_redis_operato.Controller.Status.{pos, RedisClusterStatus}

-- Enough masters are ready, and enough replicas if there are to be any.
abbrev pub EnoughReady : RedisClusterSpec → RedisClusterStatus → Type 0
EnoughReady spec s =
    (spec.masters ≤ℤ s.ready_masters)
    × (pos 1 ≤ℤ spec.replicas_per_master → total_replicas spec ≤ℤ s.ready_replicas)

module _ (c : RedisClient) (k : Kube) where
  -- The number of the ready pods of the component in the list that the API server answers, or 0 if it
  -- answers none.
  abbrev pub Counts : Str → Log → ℤ → Type 0
  Counts component l n =
      ((pods : List Pod) × (k.list_pods (Command.list_pods component ∷ l) ≡ inr pods)
        × (n ≡ count_ready_pods pods))
      ⊎ ((e : Error) × (k.list_pods (Command.list_pods component ∷ l) ≡ inl e) × (n ≡ pos 0))

  -- The state that the status shows was answered, if it is "ok".
  abbrev pub Answered : Str → Log → Str → Type 0
  Answered addr l state =
      state ≡ codes "ok"
      → (i : ClusterInfo) × (c.cluster_info (Command.cluster_info addr ∷ l) ≡ inr i)
        × (i.state ≡ codes "ok")
