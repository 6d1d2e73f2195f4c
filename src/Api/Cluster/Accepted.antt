-- ===== src/Api/Cluster/Accepted.antt =====
-- What the validating webhook of RedisCluster guarantees, and what it lets through.
use kubernetes_redis_operato.Prelude.{
  ap, ◌-◌, ◌&&◌, ℕ, ◌+◌, ◌*◌, ◌^◌, ◌≤◌, ◌<◌, ◌≡◌, ◌≢◌, none, false, arith,
}
use kubernetes_redis_operato.Prelude.Int.{
  eq_of_parts, ℤ, pos, negsuc, ◌≤ℤ◌, ◌+ℤ◌, ◌-ℤ◌, ◌*ℤ◌, ltb_ℤ,
}
use kubernetes_redis_operato.Go.Word.{int32_fits, int32}
use kubernetes_redis_operato.Api.Types.{RedisClusterSpec, Phase}
use kubernetes_redis_operato.Api.Storage.{Quantity, reject_if, check_size}
use kubernetes_redis_operato.Api.Storage.Kept.{
  KeepsStorage, check_storage_update-KeepsStorage, orelse-eq-none, reject_if-eq-none,
}
use kubernetes_redis_operato.Api.Cluster.{
  Invalid, total_nodes, validate_cluster_spec, validate_cluster_update, is_scaling,
}

-- The static constraints, with the number of nodes as the webhook computes it.
pub record IsAccepted (q : Quantity) (s : RedisClusterSpec) : Type 0 where
  pub three_masters : pos 3 ≤ℤ s.masters
  pub replicas_nonneg : pos 0 ≤ℤ s.replicas_per_master
  pub nodes_limit : total_nodes s ≤ℤ pos 100
  pub size_checked : check_size q s.storage ≡ none

le_of_not_ltb : (a b : ℤ) → ltb_ℤ a b ≡ false → b ≤ℤ a
le_of_not_ltb a b h = ground arith

pub validate_cluster_spec-IsAccepted :
    (q : Quantity) (s : RedisClusterSpec) → validate_cluster_spec q s ≡ none → IsAccepted q s
unfolding validate_cluster_spec
validate_cluster_spec-IsAccepted q s h =
    let (a, h1) = orelse-eq-none (reject_if (ltb_ℤ s.masters (pos 3)) _) _ h in
    let (b, h2) = orelse-eq-none (reject_if (ltb_ℤ s.replicas_per_master (pos 0)) _) _ h1 in
    let (d, h3) = orelse-eq-none (reject_if (ltb_ℤ (pos 100) (total_nodes s)) _) _ h2 in
    record {
      three_masters = le_of_not_ltb s.masters (pos 3) (reject_if-eq-none _ _ a);
      replicas_nonneg = le_of_not_ltb s.replicas_per_master (pos 0) (reject_if-eq-none _ _ b);
      nodes_limit = le_of_not_ltb (pos 100) (total_nodes s) (reject_if-eq-none _ _ d);
      size_checked = h3;
    }

-- An accepted update.
pub record IsUpdate (q : Quantity) (old : RedisClusterSpec) (phase : Phase) (new : RedisClusterSpec)
    : Type 0 where
  pub accepted : IsAccepted q new
  pub one_down : old.masters ≤ℤ new.masters +ℤ pos 1
  pub not_scaling : phase ≢ Phase.scaling
  pub storage_kept : KeepsStorage q old.storage new.storage

not_is_scaling : (phase : Phase) → is_scaling phase ≡ false → phase ≢ Phase.scaling
not_is_scaling Phase.scaling h = cc
not_is_scaling Phase.unset h = λ e. cc
not_is_scaling _ h = λ e. cc

one_down_of :
    (old new : ℤ)
    → pos 3 ≤ℤ new
    → old ≤ℤ pos (2 ^ 31 - 1)
    → (ltb_ℤ new old && ltb_ℤ (pos 1) (int32 (old -ℤ new))) ≡ false
    → old ≤ℤ new +ℤ pos 1
unfolding int32 ◌-ℤ◌ ◌+ℤ◌
one_down_of (pos a) (pos b) lo hi h = ground arith
one_down_of (pos a) (negsuc b) lo hi h = absurd (omega arith)
one_down_of (negsuc a) (pos b) lo hi h = ground arith
one_down_of (negsuc a) (negsuc b) lo hi h = absurd (omega arith)

-- With the old number of masters in int32, an accepted update meets the static constraints, takes away
-- at most one master, does not happen while the cluster is scaling, and keeps the storage.
pub validate_cluster_update-IsUpdate :
    (q : Quantity) (old : RedisClusterSpec) (phase : Phase) (new : RedisClusterSpec)
    → old.masters ≤ℤ pos (2 ^ 31 - 1)
    → validate_cluster_update q old phase new ≡ none
    → IsUpdate q old phase new
unfolding validate_cluster_update
validate_cluster_update-IsUpdate q old phase new fits h =
    let (a, h1) = orelse-eq-none (validate_cluster_spec q new) _ h in
    let (b, h2) = orelse-eq-none (reject_if (ltb_ℤ new.masters (pos 3)) _) _ h1 in
    let (d, h3) =
      orelse-eq-none
        (reject_if
          (ltb_ℤ new.masters old.masters && ltb_ℤ (pos 1) (int32 (old.masters -ℤ new.masters))) _)
        _ h2 in
    let (e, h4) = orelse-eq-none (reject_if (is_scaling phase) Invalid.update_while_scaling) _ h3 in
    let ok = validate_cluster_spec-IsAccepted q new a in
    record {
      accepted = ok;
      one_down =
          one_down_of old.masters new.masters ok.three_masters fits (reject_if-eq-none _ _ d);
      not_scaling = not_is_scaling phase (reject_if-eq-none _ _ e);
      storage_kept = check_storage_update-KeepsStorage q old.storage new.storage h4;
    }

sum_of_pos : (a b : ℕ) → pos a +ℤ pos b ≡ pos (a + b)
unfolding ◌+ℤ◌
sum_of_pos a b = ground arith

product_of_pos : (a b : ℕ) → pos a *ℤ pos b ≡ pos (a * b)
unfolding ◌*ℤ◌
product_of_pos a b = eq_of_parts _ _ (grind arith)

int32-pos : (n : ℕ) → n < 2 ^ 31 → int32 (pos n) ≡ pos n
int32-pos n h = int32_fits (pos n) (omega arith) (omega arith)

int32-multiple : (p k : ℕ) → p ≡ k * 2 ^ 32 → int32 (pos p) ≡ pos 0
unfolding int32
int32-multiple p k e = ground arith

total_nodes-fits :
    (s : RedisClusterSpec) (m r : ℕ)
    → s.masters ≡ pos m
    → s.replicas_per_master ≡ pos r
    → m + m * r < 2 ^ 31
    → total_nodes s ≡ pos (m + m * r)
unfolding total_nodes
total_nodes-fits s m r em er fits = rw (
  em,
  er,
  product_of_pos m r,
  int32-pos (m * r) (omega arith),
  sum_of_pos m (m * r),
  int32-pos (m + m * r) fits,
)

total_nodes-wraps :
    (s : RedisClusterSpec) (m r k : ℕ)
    → s.masters ≡ pos m
    → s.replicas_per_master ≡ pos r
    → m ≤ 100
    → m * r ≡ k * 2 ^ 32
    → total_nodes s ≡ pos m
unfolding total_nodes
total_nodes-wraps s m r k em er hi e =
    rw
      (
        em,
        er,
        product_of_pos m r,
        int32-multiple (m * r) k e,
        sum_of_pos m 0,
        int32-pos (m + 0) (omega arith),
      )
      (ap pos (omega arith))

at_most : {z : ℤ} {n : ℕ} → z ≤ℤ pos 100 → z ≡ pos n → n ≤ 100
at_most {z} {n} h e = let k : pos n ≤ℤ pos 100 = rw e at h in omega arith

-- Where masters and replicas together are fewer than 2 ^ 31, an accepted specification has at most 100
-- nodes.
pub accepted_limit :
    (q : Quantity) (s : RedisClusterSpec) (m r : ℕ)
    → s.masters ≡ pos m
    → s.replicas_per_master ≡ pos r
    → m + m * r < 2 ^ 31
    → validate_cluster_spec q s ≡ none
    → m + m * r ≤ 100
accepted_limit q s m r em er fits h =
    let limit = (validate_cluster_spec-IsAccepted q s h).nodes_limit in
    let e = total_nodes-fits s m r em er fits in at_most limit e

passes : (a b : ℤ) (e : Invalid) → b ≤ℤ a → reject_if (ltb_ℤ a b) e ≡ none
passes a b e h = ground arith

-- Where the product leaves int32 the limit is not enforced: with 3 to 100 masters and no storage, any
-- number of replicas for each master whose product with the masters is a multiple of 2 ^ 32 is
-- accepted.
pub overflow_accepted :
    (q : Quantity) (s : RedisClusterSpec) (m r k : ℕ)
    → s.masters ≡ pos m
    → s.replicas_per_master ≡ pos r
    → 3 ≤ m
    → m ≤ 100
    → m * r ≡ k * 2 ^ 32
    → s.storage ≡ none
    → validate_cluster_spec q s ≡ none
unfolding validate_cluster_spec check_size
overflow_accepted q s m r k em er lo hi product no_storage =
    rw (total_nodes-wraps s m r k em er hi product, em, er, no_storage)
      (rw (
        passes (pos m) (pos 3) (Invalid.few_masters (pos m)) (omega arith),
        passes (pos r) (pos 0) (Invalid.negative_replicas (pos r)) (omega arith),
        passes (pos 100) (pos m) (Invalid.many_nodes (pos m)) (omega arith),
      ))
