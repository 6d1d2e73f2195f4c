-- ===== src/Controller/Reload/Safe.antt =====
-- What the hot reload writes to the servers.
use kubernetes_redis_operato.Prelude.{
  ℕ, zero, suc, ◌+◌, ◌<◌, arith, ap, true, ◌≡◌, refl, ◌⊎◌, inl, inr, Option, none, some, Bool-cases,
}
use kubernetes_redis_operato.Prelude.Int.{ℤ, pos, pos_part, ltb_ℤ, ◌+ℤ◌, ◌-ℤ◌}
use kubernetes_redis_operato.Go.Text.{Str}
use kubernetes_redis_operato.Go.Map.{Map}
use kubernetes_redis_operato.Api.Cluster.{config_of}
use kubernetes_redis_operato.Api.Objects.{RedisInstance, RedisCluster}
use kubernetes_redis_operato.Redis.Effect.{Error, Command, M, pure, attempt}
use kubernetes_redis_operato.Redis.Loops.{
  All, All-map, Issues-for_all, Issues-weaken, Issues, Issues-pure, Issues-call, Issues-attempt,
  Issues-ignoring, Issues-for_each, Issues->>=,
}
use kubernetes_redis_operato.Redis.Client.{RedisClient, Runtime}
use kubernetes_redis_operato.Redis.Calls
use kubernetes_redis_operato.Resources.Config.{keys, value_of}
use kubernetes_redis_operato.Controller.Names.{count_up, between, cluster_master_addr}
use kubernetes_redis_operato.Controller.Kube.{Kube, get_secret}
use kubernetes_redis_operato.Controller.Reload.{
  is_hot, redis_addr, set_param, push_params, push_if_set, with_secret, try_cluster_hot_reload,
  hot_reload, try_hot_reload,
}

-- A `CONFIG SET` of a hot-reloadable key to its value among the settings, at an address that `A` allows.
abbrev pub IsPush : (Str → Type 0) → Map Str → Command → Type 0
IsPush A config (Command.config_set addr key value) =
    A addr × (is_hot key ≡ true) × (value ≡ value_of key config)
IsPush A config _ = ⊥

-- The same, or the reading of a secret.
abbrev pub IsReload : (Str → Type 0) → Map Str → Command → Type 0
IsReload A config (Command.get_secret secret) = Unit
IsReload A config e = IsPush A config e

IsPush-IsReload :
    (A : Str → Type 0) (config : Map Str) (e : Command) → IsPush A config e → IsReload A config e
IsPush-IsReload A config (Command.config_set addr key value) h = h
IsPush-IsReload A config _ h = elim h [ ]

module _ (rt : Runtime) (c : RedisClient) (A : Str → Type 0) (config : Map Str) where
  Issues-set_param :
      (addr key : Str) → A addr → Issues (IsPush A config) (set_param rt c addr config key)
  Issues-set_param addr key a = elim (Bool-cases (is_hot key)) [
    | inl e ↦ rw e (
        Issues-ignoring _ (Calls.config_set c addr key (value_of key config)) (
          Issues-call _ (Command.config_set addr key (value_of key config)) c.config_set
            (a, e, refl)))
    | inr e ↦ rw e (Issues-pure _ tt)
  ]

  pub Issues-push_params :
      (addr : Str) → A addr → Issues (IsPush A config) (push_params rt c addr config)
  unfolding push_params
  Issues-push_params addr a l =
      Issues-for_each _ (set_param rt c addr config) (rt.visit_keys l (keys config))
        (λ key. Issues-set_param addr key a) l

-- The address of a master, whose ordinals are those below the number of masters.
abbrev pub IsMasterAddr : RedisCluster → Str → Type 0
IsMasterAddr rc addr =
    (i : ℕ) × (ltb_ℤ (pos i) rc.spec.masters ≡ true) × (addr ≡ cluster_master_addr rc (pos i))

-- The integer is one of those from `i` on, of which there are `n`.
abbrev InRange : ℕ → ℕ → ℤ → Type 0
InRange i n j = (k : ℕ) × (j ≡ pos k) × (k < i + n)

one_up : (i : ℕ) → pos i +ℤ pos 1 ≡ pos (suc i)
unfolding ◌+ℤ◌
one_up i = ground arith

count_up-InRange : (n i : ℕ) → All (InRange i n) (count_up n (pos i))
unfolding count_up
count_up-InRange zero i = tt
count_up-InRange (suc n) i = (
  (i, refl, omega arith),
  rw (one_up i) (
      All-map (count_up n (pos (suc i))) (λ j (k, e, less). (k, e, omega arith))
        (count_up-InRange n (suc i))),
)

below : (m : ℤ) (k : ℕ) → k < 0 + pos_part (m -ℤ pos 0) → ltb_ℤ (pos k) m ≡ true
unfolding ◌-ℤ◌
below m k h = ground arith

module _ (rt : Runtime) (c : RedisClient) where
  Issues-push_if_set :
      (P : Map Str → Command → Type 0) (o : Option (Map Str)) (push : Map Str → M (Unit {0}))
      → ((config : Map Str) → Issues (P config) (push config))
      → Issues (P (config_of o)) (push_if_set rt c o push)
  Issues-push_if_set P none push h = Issues-pure _ tt
  Issues-push_if_set P (some config) push h = h config

  -- The hot reload of a cluster only issues `CONFIG SET`, of hot-reloadable keys to their values in
  -- the specification and at addresses of masters with an ordinal below the number of masters.
  pub try_cluster_hot_reload-IsReload :
      (rc : RedisCluster)
      → Issues
          (IsPush (IsMasterAddr rc) (config_of rc.spec.redis_config))
          (try_cluster_hot_reload rt c rc)
  unfolding try_cluster_hot_reload between
  try_cluster_hot_reload-IsReload rc =
      Issues-push_if_set (IsPush (IsMasterAddr rc)) rc.spec.redis_config _ (λ config.
        Issues-for_all _ (λ i. push_params rt c (cluster_master_addr rc i) config)
          (between (pos 0) rc.spec.masters)
          (All-map (between (pos 0) rc.spec.masters)
            (λ i (k, e, less).
              Issues-push_params rt c (IsMasterAddr rc) config (cluster_master_addr rc i)
                (k, below rc.spec.masters k less, ap (cluster_master_addr rc) e))
            (count_up-InRange (pos_part (rc.spec.masters -ℤ pos 0)) 0)))

  Issues-unless_failed :
      (A : Str → Type 0) (config : Map Str) (r : Error ⊎ (Unit {0})) (push : M (Unit {0}))
      → Issues (IsReload A config) push
      → Issues (IsReload A config) (elim r [ inl _ ↦ pure tt | inr _ ↦ push ])
  Issues-unless_failed A config (inl e) push h = Issues-pure _ tt
  Issues-unless_failed A config (inr u) push h = h

  Issues-with_secret :
      (k : Kube) (A : Str → Type 0) (config : Map Str) (auth : Option Str) (push : M (Unit {0}))
      → Issues (IsReload A config) push
      → Issues (IsReload A config) (with_secret rt c k auth push)
  Issues-with_secret k A config none push h = h
  Issues-with_secret k A config (some secret) push h =
      Issues->>= _ (attempt (get_secret k secret)) _
        (Issues-attempt _ (get_secret k secret)
          (Issues-call _ (Command.get_secret secret) k.get_secret tt))
        (λ r. Issues-unless_failed A config r push h)

  hot_reload-IsReload :
      (k : Kube) (r : RedisInstance)
      → Issues
          (IsReload (λ addr. addr ≡ redis_addr r) (config_of r.spec.redis_config))
          (hot_reload rt c k r)
  unfolding hot_reload
  hot_reload-IsReload k r =
      Issues-push_if_set (IsReload (λ addr. addr ≡ redis_addr r)) r.spec.redis_config _ (λ config.
        Issues-with_secret k _ config r.spec.auth _ (
          Issues-weaken (IsPush-IsReload (λ addr. addr ≡ redis_addr r) config)
            (push_params rt c (redis_addr r) config)
            (Issues-push_params rt c _ config (redis_addr r) refl)))

-- The hot reload of a standalone server only reads secrets and issues `CONFIG SET` to the address of
-- its service, of hot-reloadable keys to their values in the specification.
pub try_hot_reload-IsReload :
    (rt : Runtime) (client : Option RedisClient) (k : Kube) (r : RedisInstance)
    → Issues
        (IsReload (λ addr. addr ≡ redis_addr r) (config_of r.spec.redis_config))
        (try_hot_reload rt client k r)
unfolding try_hot_reload
try_hot_reload-IsReload rt none k r = Issues-pure _ tt
try_hot_reload-IsReload rt (some c) k r = hot_reload-IsReload rt c k r
