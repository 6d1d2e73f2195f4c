-- ===== src/Resources/Config/Determined.antt =====
-- The text of a configuration does not depend on the orders in which maps are visited.
use mathlib.Core.List.{Perm, Permᴰ, append_assoc}
use mathlib.Core.List.Perm
use mathlib.Core.Logic.{∥∥₁_elim}
use kubernetes_redis_operato.Prelude.{
  ℕ, ◌≡◌, refl, ◌∙◌, Bool, true, false, ◌||◌, some, List, [], ◌∷◌, ◌++◌, arith, Bool-cases, inl,
  inr, if◌then◌else◌,
}
use kubernetes_redis_operato.Go.Text.{Str, str_eq, str_eq_iff, contains}
use kubernetes_redis_operato.Go.Map.{Map, lookup, insert, lookup-insert}
use kubernetes_redis_operato.Go.Sort.{sort_strings}
use kubernetes_redis_operato.Go.Sort.Order.{sort_strings-perm}
use kubernetes_redis_operato.Api.Cluster.{config_of}
use kubernetes_redis_operato.Api.Objects.{RedisInstance, RedisSentinel, RedisCluster}
use kubernetes_redis_operato.Resources.Config.{
  keys, cluster_defaults, sentinel_quorum, sentinel_defaults, is_some, redis_defaults,
  build_cluster_config_map, build_sentinel_config_map, build_sentinel_redis_config_map,
  build_redis_config_map, config_data_hash, Visit, value_of, set_all, render_lines, override,
  render_conf,
}

-- Every key of a map is visited once.
abbrev pub IsVisit : Visit → Type 0
IsVisit visit = (m : Map Str) → Perm (visit m) (keys m)

contains-Permᴰ : {xs ys : List Str} (k : Str) → Permᴰ xs ys → contains xs k ≡ contains ys k
unfolding contains
contains-Permᴰ k Permᴰ.nil = refl
contains-Permᴰ k (Permᴰ.cons e d) = rw (e, contains-Permᴰ k d)
contains-Permᴰ k (Permᴰ.swap {a} {b} {l = l} e f) = rw (← e, ← f) (ground arith)
contains-Permᴰ k (Permᴰ.trans d d') = contains-Permᴰ k d ∙ contains-Permᴰ k d'

pub contains-perm : {xs ys : List Str} (k : Str) → Perm xs ys → contains xs k ≡ contains ys k
contains-perm k p = ∥∥₁_elim p (hlevel) (contains-Permᴰ k)

contains-append :
    (xs ys : List Str) (k : Str) → contains (xs ++ ys) k ≡ (contains xs k || contains ys k)
unfolding contains
contains-append [] ys k = refl
contains-append (x ∷ xs) ys k = ground (arith, contains-append xs ys k)

either_way {ℓ} : {A : Type ℓ} (b : Bool) (a : A) → (if b then a else a) ≡ a
either_way true a = refl
either_way false a = refl

pub lookup-set_all :
    (ks : List Str) (user m : Map Str) (j : Str)
    → lookup j (set_all ks user m) ≡ (if contains ks j then some (value_of j user) else lookup j m)
unfolding set_all contains
lookup-set_all [] user m j = refl
lookup-set_all (k ∷ ks) user m j =
    rw
      (
        lookup-set_all ks user (insert k (value_of k user) m) j,
        lookup-insert j k (value_of k user) m,
      )
      (elim (Bool-cases (str_eq k j)) [
        | inr e ↦ rw e
        | inl e ↦ rw (e, (str_eq_iff k j).0 e) (either_way (contains ks j) (some (value_of j user)))
      ])

add_key : Str → List Str → List Str
add_key k l = if contains l k then l else l ++ k ∷ []

keys-insert : (k v : Str) (m : Map Str) → keys (insert k v m) ≡ add_key k (keys m)
unfolding insert add_key contains
keys-insert k v [] = refl
keys-insert k v ((j, w) ∷ m) = elim (Bool-cases (str_eq j k)) [
  | inl e ↦ rw e (rw ((str_eq_iff j k).0 e))
  | inr e ↦
      rw (e, keys-insert k v m)
        (elim (Bool-cases (contains (keys m) k)) [
          | inl q ↦ rw (q, add_key)
          | inr q ↦ rw (q, add_key)
        ])
]

add_keys : List Str → List Str → List Str
unfolding add_key
add_keys [] l = l
add_keys (k ∷ ks) l = add_keys ks (add_key k l)

keys-set_all : (ks : List Str) (user m : Map Str) → keys (set_all ks user m) ≡ add_keys ks (keys m)
unfolding set_all add_keys
keys-set_all [] user m = refl
keys-set_all (k ∷ ks) user m = keys-set_all ks user _ ∙ rw keys-insert

add_key-perm : (k : Str) {l l' : List Str} → Perm l l' → Perm (add_key k l) (add_key k l')
unfolding add_key
add_key-perm k {l} {l'} p = elim (Bool-cases (contains l' k)) [
  | inl e ↦ rw (contains-perm k p, e) p
  | inr e ↦ rw (contains-perm k p, e) (Perm.append_right (k ∷ []) p)
]

str_eq-false_symm : (a b : Str) → str_eq a b ≡ false → str_eq b a ≡ false
str_eq-false_symm a b h = ground (arith, str_eq_iff a b, str_eq_iff b a)

add_key_comm : (a b : Str) (l : List Str) → Perm (add_key a (add_key b l)) (add_key b (add_key a l))
unfolding add_key contains
add_key_comm a b l = elim (Bool-cases (contains l a)) [
  | inl ca ↦ elim (Bool-cases (contains l b)) [
    | inl cb ↦ simp (ca, cb) (Perm.refl l)
    | inr cb ↦ simp (ca, cb, contains-append) (Perm.refl (l ++ b ∷ []))
  ]
  | inr ca ↦ elim (Bool-cases (contains l b)) [
    | inl cb ↦ simp (ca, cb, contains-append) (Perm.refl (l ++ a ∷ []))
    | inr cb ↦ elim (Bool-cases (str_eq a b)) [
      | inl e ↦ rw ((str_eq_iff a b).0 e) (Perm.refl _)
      | inr e ↦
          simp (ca, cb, contains-append, e, str_eq-false_symm a b e, append_assoc)
            (Perm.append_left l (Perm.swap a b []))
    ]
  ]
]

add_keys-perm :
    (ks : List Str) {l l' : List Str} → Perm l l' → Perm (add_keys ks l) (add_keys ks l')
unfolding add_keys
add_keys-perm [] p = p
add_keys-perm (k ∷ ks) p = add_keys-perm ks (add_key-perm k p)

add_keys-Permᴰ :
    {ks ks' : List Str} (l : List Str) → Permᴰ ks ks' → Perm (add_keys ks l) (add_keys ks' l)
unfolding add_keys
add_keys-Permᴰ l Permᴰ.nil = Perm.refl l
add_keys-Permᴰ l (Permᴰ.cons {a} {b} e d) = rw e (add_keys-Permᴰ (add_key b l) d)
add_keys-Permᴰ l (Permᴰ.swap {a} {b} {l = ks} e f) =
    rw (← e, ← f) (add_keys-perm ks (add_key_comm b a l))
add_keys-Permᴰ l (Permᴰ.trans d d') = Perm.trans (add_keys-Permᴰ l d) (add_keys-Permᴰ l d')

render_lines-eq :
    (sep : ℕ) (m m' : Map Str) (ks : List Str)
    → ((j : Str) → lookup j m ≡ lookup j m')
    → render_lines sep m ks ≡ render_lines sep m' ks
unfolding render_lines
render_lines-eq sep m m' [] h = refl
render_lines-eq sep m m' (k ∷ ks) h = rw (h k, render_lines-eq sep m m' ks h)

module _ (visit visit' : Visit) (first : IsVisit visit) (second : IsVisit visit') where
  override-lookup :
      (user m : Map Str) (j : Str)
      → lookup j (override visit user m) ≡ lookup j (override visit' user m)
  unfolding override
  override-lookup user m j = rw (
    lookup-set_all (visit user) user m j,
    lookup-set_all (visit' user) user m j,
    contains-perm j (first user),
    contains-perm j (second user),
  )

  override-keys :
      (user m : Map Str) → Perm (keys (override visit user m)) (keys (override visit' user m))
  unfolding override
  override-keys user m =
      rw (keys-set_all (visit user) user m, keys-set_all (visit' user) user m)
        (∥∥₁_elim (Perm.trans (first user) (Perm.symm (second user))) (hlevel)
          (add_keys-Permᴰ (keys m)))

  render_conf-determined :
      (user m : Map Str)
      → render_conf visit (override visit user m) ≡ render_conf visit' (override visit' user m)
  unfolding render_conf
  render_conf-determined user m =
      let one = override visit user m in
      let two = override visit' user m in
      let order =
        Perm.trans (first one) (Perm.trans (override-keys user m) (Perm.symm (second two))) in
      rw (sort_strings-perm order)
        (render_lines-eq b' ' one two (sort_strings (visit' two)) (override-lookup user m))

  hash-determined :
      (sha256_hex : Str → Str) (m : Map Str)
      → config_data_hash visit sha256_hex m ≡ config_data_hash visit' sha256_hex m
  unfolding config_data_hash
  hash-determined sha256_hex m =
      rw (sort_strings-perm (Perm.trans (first m) (Perm.symm (second m))))

  -- However Go's `range` visits the keys of maps, each of the four builders gives the same ConfigMap,
  -- and the hash of the data of a ConfigMap, which restarts the pods when it changes, is the same.
  pub build_config_maps-determined :
      (sha256_hex : Str → Str) (r : RedisInstance) (rs : RedisSentinel) (rc : RedisCluster)
      (master : Str) (m : Map Str)
      → (build_redis_config_map visit r ≡ build_redis_config_map visit' r)
        × (build_sentinel_redis_config_map visit rs ≡ build_sentinel_redis_config_map visit' rs)
        × (build_sentinel_config_map visit rs master ≡ build_sentinel_config_map visit' rs master)
        × (build_cluster_config_map visit rc ≡ build_cluster_config_map visit' rc)
        × (config_data_hash visit sha256_hex m ≡ config_data_hash visit' sha256_hex m)
  unfolding build_redis_config_map build_sentinel_redis_config_map build_sentinel_config_map
      build_cluster_config_map
  build_config_maps-determined sha256_hex r rs rc master m = (
    rw (
        render_conf-determined (config_of r.spec.redis_config)
          (redis_defaults (is_some r.spec.tls))),
    rw (
        render_conf-determined (config_of rs.spec.redis_config)
          (redis_defaults (is_some rs.spec.tls))),
    rw (
        render_conf-determined (config_of rs.spec.sentinel_config)
          (sentinel_defaults master (sentinel_quorum rs.spec.sentinel_replicas))),
    rw (render_conf-determined (config_of rc.spec.redis_config) cluster_defaults),
    hash-determined sha256_hex m,
  )
