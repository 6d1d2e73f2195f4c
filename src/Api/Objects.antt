-- ===== src/Api/Objects.antt =====
-- The custom resources of api/v1alpha1: what the controllers read of an object. `phase` and
-- `master_node` stand in its status.
use kubernetes_redis_operato.Prelude.{Bool}
use kubernetes_redis_operato.Go.Text.{Str}
use kubernetes_redis_operato.Go.Map.{Map}
use kubernetes_redis_operato.Api.Types.{RedisSpec, RedisSentinelSpec, RedisClusterSpec, Phase}

-- The metadata that a controller acts on: `deleting` is `!DeletionTimestamp.IsZero()`, `finalizer`
-- whether the operator's finalizer is there.
pub record Meta : Type 0 where
  pub deleting : Bool
  pub finalizer : Bool
  pub annotations : Map Str

-- The type `Redis`.
pub record RedisInstance : Type 0 where
  pub name : Str
  pub namespace : Str
  pub spec : RedisSpec
  pub phase : Phase

pub record RedisSentinel : Type 0 where
  pub name : Str
  pub namespace : Str
  pub spec : RedisSentinelSpec
  pub phase : Phase
  pub master_node : Str

pub record RedisCluster : Type 0 where
  pub name : Str
  pub namespace : Str
  pub spec : RedisClusterSpec
  pub phase : Phase
