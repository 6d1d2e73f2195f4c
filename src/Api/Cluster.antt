-- ===== src/Api/Cluster.antt =====
-- The webhooks of api/v1alpha1/rediscluster_webhook.go. An update of another kind of object cannot
-- be stated here, so that error does not arise.
pub mod Accepted
pub mod History
use kubernetes_redis_operato.Prelude.{
  ℕ, zero, ◌%◌, Bool, true, false, ◌&&◌, Option, none, some, List, [], ◌∷◌, ◌==◌, if◌then◌else◌,
}
use kubernetes_redis_operato.Prelude.Int.{ℤ, pos, ◌+ℤ◌, ◌-ℤ◌, ◌*ℤ◌, ltb_ℤ, pos_part, neg_part}
use kubernetes_redis_operato.Go.Text.{Str, codes, str_eq}
use kubernetes_redis_operato.Go.Word.{int32}
use kubernetes_redis_operato.Go.Map.{Map, insert, lookup}
use kubernetes_redis_operato.Api.Types.{
  RedisClusterSpec, Phase, default_redis_image, default_exporter_image,
}
use kubernetes_redis_operato.Api.Storage.{
  Invalid, Quantity, Check, ◌orelse◌, reject_if, check_size, check_storage_update,
}

abbrev pub is_zero : ℤ → Bool
is_zero (pos zero) = true
is_zero _ = false

abbrev pub or_default : Str → Str → Str
or_default [] d = d
or_default (a ∷ s) d = a ∷ s

abbrev pub or_true : Option Bool → Option Bool
or_true none = some true
or_true (some b) = some b

abbrev pub set_default : Str → Str → Option Str → Map Str → Map Str
set_default k v none m = insert k v m
set_default k v (some _) m = m

abbrev pub with_default : Str → Str → Map Str → Map Str
with_default k v m = set_default k v (lookup k m) m

abbrev pub config_of : Option (Map Str) → Map Str
config_of none = []
config_of (some m) = m

abbrev pub node_timeout : Str
node_timeout = codes "cluster-node-timeout"

abbrev pub append_only : Str
append_only = codes "appendonly"

-- `Default`
unfoldable pub default_cluster : RedisClusterSpec → RedisClusterSpec
unfolding lookup insert
default_cluster s = record s {
  masters = if is_zero s.masters then pos 3 else s.masters;
  image = or_default s.image default_redis_image;
  redis_config = some (
      with_default append_only (codes "yes")
        (with_default node_timeout (codes "15000") (config_of s.redis_config)));
  enable_exporter = or_true s.enable_exporter;
  exporter_image = or_default s.exporter_image default_exporter_image;
}

-- `totalNodes`, computed in int32
unfoldable pub total_nodes : RedisClusterSpec → ℤ
unfolding int32 ◌+ℤ◌ ◌*ℤ◌
total_nodes s = int32 (s.masters +ℤ int32 (s.masters *ℤ s.replicas_per_master))

-- `validateClusterSpec`, without its warning
unfoldable pub validate_cluster_spec : Quantity → RedisClusterSpec → Check
unfolding total_nodes check_size
validate_cluster_spec q s =
    reject_if (ltb_ℤ s.masters (pos 3)) (Invalid.few_masters s.masters)
    orelse reject_if (ltb_ℤ s.replicas_per_master (pos 0))
        (Invalid.negative_replicas s.replicas_per_master)
    orelse reject_if (ltb_ℤ (pos 100) (total_nodes s)) (Invalid.many_nodes (total_nodes s))
    orelse check_size q s.storage

-- The warning of `validateClusterSpec` for an accepted specification: `spec.Masters%2 == 0`.
unfoldable pub warns_even : RedisClusterSpec → Bool
warns_even s = (pos_part s.masters % 2 == 0) && (neg_part s.masters % 2 == 0)

abbrev pub is_scaling : Phase → Bool
is_scaling Phase.scaling = true
is_scaling _ = false

-- `ValidateUpdate`, from the old specification and the old phase
unfoldable pub validate_cluster_update :
    Quantity → RedisClusterSpec → Phase → RedisClusterSpec → Check
unfolding validate_cluster_spec check_storage_update int32 ◌-ℤ◌
validate_cluster_update q old phase new =
    validate_cluster_spec q new
    orelse reject_if (ltb_ℤ new.masters (pos 3)) Invalid.masters_below_three
    orelse reject_if
        (ltb_ℤ new.masters old.masters && ltb_ℤ (pos 1) (int32 (old.masters -ℤ new.masters)))
        (Invalid.scale_down_by_many old.masters new.masters)
    orelse reject_if (is_scaling phase) Invalid.update_while_scaling
    orelse check_storage_update q old.storage new.storage

-- `ValidateDelete`
unfoldable pub validate_cluster_delete : Phase → Check
validate_cluster_delete phase = reject_if (is_scaling phase) Invalid.delete_while_scaling
