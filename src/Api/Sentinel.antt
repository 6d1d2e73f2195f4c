-- ===== src/Api/Sentinel.antt =====
-- The webhooks of api/v1alpha1/redissentinel_webhook.go.
use kubernetes_redis_operato.Prelude.{◌%◌, Bool, ◌==◌, ◌&&◌, if◌then◌else◌}
use kubernetes_redis_operato.Prelude.Int.{ℤ, pos, ltb_ℤ, pos_part, neg_part}
use kubernetes_redis_operato.Api.Types.{
  RedisSentinelSpec, default_redis_image, default_exporter_image,
}
use kubernetes_redis_operato.Api.Storage.{
  Invalid, Quantity, Check, ◌orelse◌, reject_if, check_size, check_storage_update,
}
use kubernetes_redis_operato.Api.Cluster.{is_zero, or_default, or_true}

-- `Default`
unfoldable pub default_sentinel : RedisSentinelSpec → RedisSentinelSpec
default_sentinel s =
    let image = or_default s.image default_redis_image in
    record s {
      replicas = if is_zero s.replicas then pos 3 else s.replicas;
      sentinel_replicas = if is_zero s.sentinel_replicas then pos 3 else s.sentinel_replicas;
      image = image;
      sentinel_image = or_default s.sentinel_image image;
      enable_exporter = or_true s.enable_exporter;
      exporter_image = or_default s.exporter_image default_exporter_image;
    }

-- `n%2 == 0`, for a remainder with the sign of `n`
abbrev is_even : ℤ → Bool
is_even n = (pos_part n % 2 == 0) && (neg_part n % 2 == 0)

-- `validateSentinelSpec`
unfoldable pub validate_sentinel_spec : Quantity → RedisSentinelSpec → Check
unfolding check_size
validate_sentinel_spec q s =
    reject_if (ltb_ℤ s.replicas (pos 3)) (Invalid.few_replicas s.replicas)
    orelse reject_if (ltb_ℤ s.sentinel_replicas (pos 3)) (Invalid.few_sentinels s.sentinel_replicas)
    orelse reject_if (is_even s.sentinel_replicas) (Invalid.even_sentinels s.sentinel_replicas)
    orelse check_size q s.storage

-- `ValidateUpdate`
unfoldable pub validate_sentinel_update : Quantity → RedisSentinelSpec → RedisSentinelSpec → Check
unfolding validate_sentinel_spec check_storage_update
validate_sentinel_update q old new =
    validate_sentinel_spec q new
    orelse reject_if (ltb_ℤ new.replicas (pos 3)) (Invalid.replicas_below_three new.replicas)
    orelse reject_if (ltb_ℤ new.sentinel_replicas (pos 3))
        (Invalid.sentinels_below_three new.sentinel_replicas)
    orelse check_storage_update q old.storage new.storage
