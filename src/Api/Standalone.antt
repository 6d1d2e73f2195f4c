-- ===== src/Api/Standalone.antt =====
-- The webhooks of api/v1alpha1/redis_webhook.go.
use kubernetes_redis_operato.Api.Types.{RedisSpec, default_redis_image, default_exporter_image}
use kubernetes_redis_operato.Api.Storage.{
  Quantity, Check, ◌orelse◌, check_size, check_storage_update,
}
use kubernetes_redis_operato.Api.Cluster.{or_default, or_true}

-- `Default`
unfoldable pub default_redis : RedisSpec → RedisSpec
default_redis s = record s {
  image = or_default s.image default_redis_image;
  enable_exporter = or_true s.enable_exporter;
  exporter_image = or_default s.exporter_image default_exporter_image;
}

-- `validateSpec`
unfoldable pub validate_redis_spec : Quantity → RedisSpec → Check
unfolding check_size
validate_redis_spec q s = check_size q s.storage

-- `ValidateUpdate`
unfoldable pub validate_redis_update : Quantity → RedisSpec → RedisSpec → Check
unfolding validate_redis_spec check_storage_update
validate_redis_update q old new =
    validate_redis_spec q new orelse check_storage_update q old.storage new.storage
