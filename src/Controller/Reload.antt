-- ===== src/Controller/Reload.antt =====
-- The hot reload of settings: `tryHotReload` of internal/controller/redis_controller.go and
-- `tryClusterHotReload` of rediscluster_controller.go, the latter for a reconciler with a client.
pub mod Safe
use kubernetes_redis_operato.Prelude.{
  Bool, true, false, List, [], ◌∷◌, ◌++◌, Option, none, some, ◌⊎◌, inl, inr, if◌then◌else◌,
}
use kubernetes_redis_operato.Prelude.Int.{ℤ, pos}
use kubernetes_redis_operato.Go.Text.{Str, codes, str_eq, contains}
use kubernetes_redis_operato.Go.Number.{itoa}
use kubernetes_redis_operato.Go.Map.{Map}
use kubernetes_redis_operato.Api.Objects.{RedisInstance, RedisCluster}
use kubernetes_redis_operato.Redis.Effect.{Error, Log, M, pure, attempt, ignoring, for_each, ◌>>=◌}
use kubernetes_redis_operato.Redis.Client.{RedisClient, Runtime}
use kubernetes_redis_operato.Redis.Calls
use kubernetes_redis_operato.Resources.Labels.{redis_port}
use kubernetes_redis_operato.Resources.Config.{keys, value_of}
use kubernetes_redis_operato.Controller.Names.{between, cluster_master_addr}
use kubernetes_redis_operato.Controller.Kube.{Kube, get_secret}

abbrev pub hot_reloadable_params : List Str
hot_reloadable_params =
    codes "maxmemory"
    ∷ codes "maxmemory-policy"
    ∷ codes "hz"
    ∷ codes "loglevel"
    ∷ codes "save"
    ∷ codes "timeout"
    ∷ codes "tcp-keepalive"
    ∷ codes "slowlog-log-slower-than"
    ∷ codes "slowlog-max-len"
    ∷ []

-- `hotReloadableParams[k]`
unfoldable pub is_hot : Str → Bool
unfolding contains
is_hot k = contains hot_reloadable_params k

-- `<name>.<namespace>.svc.cluster.local:6379`
unfoldable pub redis_addr : RedisInstance → Str
unfolding itoa
redis_addr r = r.name ++ b'.' ∷ r.namespace ++ codes ".svc.cluster.local:" ++ itoa redis_port

module _ (rt : Runtime) (c : RedisClient) where
  -- One key; an error is logged only.
  abbrev pub set_param : Str → Map Str → Str → M (Unit {0})
  set_param addr config key =
      if is_hot key then ignoring (Calls.config_set c addr key (value_of key config)) else pure tt

  -- The loop over the settings, in the order in which `range` visits them now.
  unfoldable pub push_params : Str → Map Str → M (Unit {0})
  unfolding is_hot for_each
  push_params addr config l = for_each (set_param addr config) (rt.visit_keys l (keys config)) l

  abbrev pub push_if_set : Option (Map Str) → (Map Str → M (Unit {0})) → M (Unit {0})
  push_if_set none push = pure tt
  push_if_set (some config) push = push config

  unfoldable pub try_cluster_hot_reload : RedisCluster → M (Unit {0})
  unfolding push_params cluster_master_addr between for_each
  try_cluster_hot_reload rc = push_if_set rc.spec.redis_config (λ config.
      for_each (λ i. push_params (cluster_master_addr rc i) config)
        (between (pos 0) rc.spec.masters))

  module _ (k : Kube) where
    -- Without the secret of the password nothing is pushed.
    abbrev pub with_secret : Option Str → M (Unit {0}) → M (Unit {0})
    with_secret none push = push
    with_secret (some secret) push = do
      r ← attempt (get_secret k secret)
      elim r [ inl _ ↦ pure tt | inr _ ↦ push ]

    unfoldable pub hot_reload : RedisInstance → M (Unit {0})
    unfolding push_params redis_addr
    hot_reload r =
        push_if_set r.spec.redis_config
          (λ config. with_secret r.spec.auth (push_params (redis_addr r) config))

-- A reconciler without a client pushes nothing.
abbrev pub with_client : Option RedisClient → (RedisClient → M (Unit {0})) → M (Unit {0})
with_client none m = pure tt
with_client (some c) m = m c

unfoldable pub try_hot_reload : Runtime → Option RedisClient → Kube → RedisInstance → M (Unit {0})
unfolding hot_reload
try_hot_reload rt client k r = with_client client (λ c. hot_reload rt c k r)
