-- ===== src/Api/Types.antt =====
-- The types of api/v1alpha1, with the fields that the operator's own code reads; pod resources,
-- affinities, tolerations, node selectors and the message of a status pass through untouched.
use kubernetes_redis_operato.Prelude.{Bool, Option}
use kubernetes_redis_operato.Prelude.Int.{ℤ}
use kubernetes_redis_operato.Go.Text.{Str, codes}
use kubernetes_redis_operato.Go.Map.{Map}

pub record StorageSpec : Type 0 where
  pub class_name : Option Str
  pub size : Str
  pub keep_after_deletion : Bool

-- `AuthSpec` and `TLSSpec` are the name of a secret.
pub record RedisClusterSpec : Type 0 where
  -- int32
  pub masters : ℤ
  pub replicas_per_master : ℤ
  pub image : Str
  pub storage : Option StorageSpec
  pub redis_config : Option (Map Str)
  pub auth : Option Str
  pub tls : Option Str
  pub enable_exporter : Option Bool
  pub exporter_image : Str

pub record RedisSentinelSpec : Type 0 where
  -- int32
  pub replicas : ℤ
  pub sentinel_replicas : ℤ
  pub image : Str
  pub sentinel_image : Str
  pub storage : Option StorageSpec
  pub redis_config : Option (Map Str)
  pub sentinel_config : Option (Map Str)
  pub auth : Option Str
  pub tls : Option Str
  pub enable_exporter : Option Bool
  pub exporter_image : Str

pub record RedisSpec : Type 0 where
  pub image : Str
  pub storage : Option StorageSpec
  pub redis_config : Option (Map Str)
  pub auth : Option Str
  pub tls : Option Str
  pub enable_exporter : Option Bool
  pub exporter_image : Str

-- The lifecycle phases; `unset` is the empty string.
pub data Phase : Type 0 where
  unset initializing ready failed scaling recovering : Phase

abbrev pub default_redis_image : Str
default_redis_image = codes "redis:7.2-alpine"

abbrev pub default_exporter_image : Str
default_exporter_image = codes "oliver006/redis_exporter:latest"
