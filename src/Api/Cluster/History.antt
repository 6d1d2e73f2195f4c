-- ===== src/Api/Cluster/History.antt =====
-- The specifications that a RedisCluster goes through, if the webhook lets each of them pass.
use kubernetes_redis_operato.Prelude.{
  ◌^◌, ◌-◌, ◌≡◌, refl, ◌∙◌, none, some, Option, Option-cases, [], inl, inr, arith,
}
use kubernetes_redis_operato.Prelude.Int.{ℤ, pos, ◌≤ℤ◌}
use kubernetes_redis_operato.Go.Text.{str_eq}
use kubernetes_redis_operato.Api.Types.{RedisClusterSpec, StorageSpec, Phase}
use kubernetes_redis_operato.Api.Storage.{Quantity, Invalid, reject_if, parses, check_size}
use kubernetes_redis_operato.Api.Storage.Kept.{KeepsStorage, orelse-eq-none}
use kubernetes_redis_operato.Api.Cluster.{validate_cluster_spec, validate_cluster_update}
use kubernetes_redis_operato.Api.Cluster.Accepted.{
  IsAccepted, validate_cluster_spec-IsAccepted, validate_cluster_update-IsUpdate,
}

-- Created with the specification `first`, and updated while in any phases. The number of masters is
-- an int32.
pub data History (q : Quantity) (first : RedisClusterSpec) : RedisClusterSpec → Type 0 where
  created : validate_cluster_spec q first ≡ none → History q first first
  updated :
      {old : RedisClusterSpec} (phase : Phase) (new : RedisClusterSpec)
      → History q first old
      → old.masters ≤ℤ pos (2 ^ 31 - 1)
      → validate_cluster_update q old phase new ≡ none
      → History q first new

abbrev pub IsKept : Quantity → RedisClusterSpec → RedisClusterSpec → Type 0
IsKept q first s = IsAccepted q s × KeepsStorage q first.storage s.storage

KeepsStorage-refl : (q : Quantity) (o : Option StorageSpec) → KeepsStorage q o o
KeepsStorage-refl q none = tt
KeepsStorage-refl q (some s) = (refl, λ a b p p'. (let same : a ≡ b = cc in rw same (le_refl b)))
  where
    le_refl : (z : ℤ) → z ≤ℤ z
    le_refl z = ground arith

KeepsStorage-trans :
    (q : Quantity) (x y z : Option StorageSpec)
    → check_size q y ≡ none
    → KeepsStorage q x y
    → KeepsStorage q y z
    → KeepsStorage q x z
unfolding check_size
KeepsStorage-trans q none none none c h g = tt
KeepsStorage-trans q none none (some z) c h g = g
KeepsStorage-trans q none (some y) z c h g = absurd h
KeepsStorage-trans q (some x) none z c h g = absurd h
KeepsStorage-trans q (some x) (some y) none c h g = g
KeepsStorage-trans q (some x) (some y) (some z) c (same, h) (same', g) = (
  same ∙ same',
  λ a b p p'. elim (Option-cases (q y.size)) [
    | inl n ↦ cc (
        rw n at
          (orelse-eq-none (reject_if (str_eq y.size []) Invalid.empty_size) (parses (q y.size))
            c).1)
    | inr (m, n) ↦ le_trans a m b (h a m p n) (g m b n p')
  ],
)
  where
    le_trans : (a b d : ℤ) → a ≤ℤ b → b ≤ℤ d → a ≤ℤ d
    le_trans a b d h g = ground arith

-- Every specification in the history of a cluster that the webhook has guarded meets the static
-- constraints, and has the storage of the first one: it is there or not, its class is the same, and its
-- size is not below the first where both are quantities.
pub History-IsKept :
    (q : Quantity) (first s : RedisClusterSpec) → History q first s → IsKept q first s
History-IsKept q first s (History.created h) =
    (validate_cluster_spec-IsAccepted q first h, KeepsStorage-refl q first.storage)
History-IsKept q first s (History.updated {old} phase new past fits h) =
    let (accepted, kept) = History-IsKept q first old past in
    let u = validate_cluster_update-IsUpdate q old phase new fits h in
    (
      u.accepted,
      KeepsStorage-trans q first.storage old.storage new.storage accepted.size_checked kept
          u.storage_kept,
    )
