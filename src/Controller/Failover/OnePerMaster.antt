-- ===== src/Controller/Failover/OnePerMaster.antt =====
-- Which failovers the rolling failover asks for.
use mathlib.Core.List.{Perm, Permᴰ, flat_map}
use mathlib.Core.Logic.{∥∥₁_elim}
use kubernetes_redis_operato.Prelude.{
  ℕ, ◌+◌, Bool, true, false, ◌||◌, ◌&&◌, ◌≡◌, refl, ◌∙◌, List, [], ◌∷◌, ◌++◌, ap, inl, inr, Option,
  none, some, Bool-cases, arith,
}
use kubernetes_redis_operato.Go.Text.{Str, str_eq, str_eq_iff, contains}
use kubernetes_redis_operato.Redis.Effect.{Command, Log, Result, emit}
use kubernetes_redis_operato.Redis.Loops.{All, for_each-emit, ignoring-call}
use kubernetes_redis_operato.Redis.Node.{ClusterNode, is_master}
use kubernetes_redis_operato.Redis.Client.{RedisClient, Runtime}
use kubernetes_redis_operato.Controller.Kube.{Kube}
use kubernetes_redis_operato.Controller.Failover.{
  master_id_set, first_replica_of, fail_over, fail_over_all,
}

-- 1 or 0.
abbrev pub indicator : Bool → ℕ
indicator true = 1
indicator false = 0

-- How often a text is listed.
unfoldable pub occurrences : Str → List Str → ℕ
unfolding str_eq
occurrences id [] = 0
occurrences id (k ∷ ks) = indicator (str_eq k id) + occurrences id ks

-- A master with this identifier is listed.
unfoldable pub lists_master : List ClusterNode → Str → Bool
unfolding str_eq is_master
lists_master [] id = false
lists_master (n ∷ nodes) id = (is_master n && str_eq n.node_id id) || lists_master nodes id

-- The failover of one master: of its first replica, if there is one.
abbrev pub failover_of : Option ClusterNode → List Command
failover_of none = []
failover_of (some n) = Command.cluster_failover n.addr ∷ []

occurrences-Permᴰ : {xs ys : List Str} (k : Str) → Permᴰ xs ys → occurrences k xs ≡ occurrences k ys
unfolding occurrences
occurrences-Permᴰ k Permᴰ.nil = refl
occurrences-Permᴰ k (Permᴰ.cons e d) = rw (e, occurrences-Permᴰ k d)
occurrences-Permᴰ k (Permᴰ.swap {a} {b} {l = l} e f) = rw (← e, ← f) (omega arith)
occurrences-Permᴰ k (Permᴰ.trans d d') = occurrences-Permᴰ k d ∙ occurrences-Permᴰ k d'

occurrences-perm : {xs ys : List Str} (k : Str) → Perm xs ys → occurrences k xs ≡ occurrences k ys
occurrences-perm k p = ∥∥₁_elim p (hlevel) (occurrences-Permᴰ k)

contains-occurrences :
    (id : Str) (ids : List Str) → contains ids id ≡ false → occurrences id ids ≡ 0
unfolding contains occurrences
contains-occurrences id [] h = refl
contains-occurrences id (k ∷ ks) h = ground (arith, contains-occurrences id ks)

or_false : (b : Bool) → indicator (b) ≡ indicator (b || false)
or_false true = refl
or_false false = refl

-- One more identifier that was not there.
new_once :
    (id k : Str) (ids : List Str)
    → contains ids k ≡ false
    → occurrences id ids ≡ indicator (contains ids id)
    → occurrences id (k ∷ ids) ≡ indicator (contains (k ∷ ids) id)
unfolding occurrences contains
new_once id k ids q h = ground (arith, str_eq_iff k id)

old_once :
    (id k : Str) (ids : List Str) (b : Bool)
    → contains ids k ≡ true
    → indicator (contains ids id || b) ≡ indicator (contains ids id || (str_eq k id || b))
old_once id k ids b q = ground (arith, str_eq_iff k id)

swap_or : (a b d : Bool) → indicator ((a || b) || d) ≡ indicator (b || (a || d))
swap_or true true d = refl
swap_or true false d = refl
swap_or false true d = refl
swap_or false false d = refl

occurs_once :
    (id : Str) (nodes : List ClusterNode) (ids : List Str)
    → occurrences id ids ≡ indicator (contains ids id)
    → occurrences id (master_id_set nodes ids)
      ≡ indicator (contains ids id || lists_master nodes id)
unfolding master_id_set lists_master contains
occurs_once id [] ids h = h ∙ or_false (contains ids id)
occurs_once id (n ∷ nodes) ids h = elim (Bool-cases (is_master n)) [
  | inr e ↦ rw e (occurs_once id nodes ids h)
  | inl e ↦ elim (Bool-cases (contains ids n.node_id)) [
    | inl q ↦
        rw (e, q) (occurs_once id nodes ids h ∙ old_once id n.node_id ids (lists_master nodes id) q)
    | inr q ↦
        rw (e, q)
          (occurs_once id nodes (n.node_id ∷ ids) (new_once id n.node_id ids q h)
            ∙ swap_or (str_eq n.node_id id) (contains ids id) (lists_master nodes id))
  ]
]

-- A node that is no master and follows the node with the identifier.
abbrev pub IsReplicaOf : Str → ClusterNode → Type 0
IsReplicaOf id n = (n.master_id ≡ id) × (is_master n ≡ false)

-- No listed node follows the identifier, or this is the first one that does.
abbrev pub IsFirstReplica : Str → List ClusterNode → Option ClusterNode → Type 0
IsFirstReplica id nodes none = All (λ n. ¬ IsReplicaOf id n) nodes
IsFirstReplica id nodes (some n) =
    (before behind : List ClusterNode) × (nodes ≡ before ++ n ∷ behind)
    × All (λ x. ¬ IsReplicaOf id x) before
    × IsReplicaOf id n

IsFirstReplica-behind :
    (id : Str) (n : ClusterNode) (nodes : List ClusterNode) (o : Option ClusterNode)
    → ¬ IsReplicaOf id n
    → IsFirstReplica id nodes o
    → IsFirstReplica id (n ∷ nodes) o
IsFirstReplica-behind id n nodes none h all = (h, all)
IsFirstReplica-behind id n nodes (some x) h (before, behind, e, all, is) =
    (n ∷ before, behind, ap (λ ns. n ∷ ns) e, (h, all), is)

first_replica_of-IsFirstReplica :
    (id : Str) (nodes : List ClusterNode) → IsFirstReplica id nodes (first_replica_of id nodes)
unfolding first_replica_of
first_replica_of-IsFirstReplica id [] = tt
first_replica_of-IsFirstReplica id (n ∷ nodes) = elim (Bool-cases (str_eq n.master_id id)) [
  | inr other ↦ rw other (
      IsFirstReplica-behind id n nodes _ (λ h. ground (arith, str_eq_iff n.master_id id))
        (first_replica_of-IsFirstReplica id nodes))
  | inl same ↦ elim (Bool-cases (is_master n)) [
    | inl master ↦
        rw (same, master)
          (IsFirstReplica-behind id n nodes _ (λ h. cc) (first_replica_of-IsFirstReplica id nodes))
    | inr replica ↦
        rw (same, replica) ([], nodes, refl, tt, ((str_eq_iff n.master_id id).0 same, replica))
  ]
]

-- Failing over succeeds and issues, for a list of identifiers in which each identifier of a listed
-- master stands once and no other stands, exactly the failover of the first replica that follows it.
abbrev pub FailsOverOnce : Runtime → RedisClient → Kube → List ClusterNode → Log → Type 0
FailsOverOnce rt c k nodes l =
    (ids : List Str) × (pick : (Str → Option ClusterNode)) × (fail_over_all rt c k nodes l
      ≡ (Result.ok tt, emit (flat_map (λ id. failover_of (pick id)) ids) l))
    × ((id : Str) → IsFirstReplica id nodes (pick id))
    × ((id : Str) → occurrences id ids ≡ indicator (lists_master nodes id))

module _ (rt : Runtime) (c : RedisClient) (k : Kube) where
  fail_over-emit :
      (o : Option ClusterNode) (l : Log)
      → fail_over rt c k o l ≡ (Result.ok tt, emit (failover_of o) l)
  fail_over-emit none l = refl
  fail_over-emit (some n) l = ignoring-call (Command.cluster_failover n.addr) c.cluster_failover l

  -- If the order of visiting a set of identifiers is one of its permutations, then failing over
  -- always succeeds and issues, for a list of identifiers in which each identifier of a listed master
  -- stands once and no other stands, exactly the failover of the first replica that follows it.
  pub fail_over_all-once :
      (nodes : List ClusterNode) (l : Log)
      → ((ids : List Str) → Perm (rt.visit_keys l ids) ids)
      → FailsOverOnce rt c k nodes l
  unfolding fail_over_all flat_map occurrences
  fail_over_all-once nodes l p = (
    rt.visit_keys l (master_id_set nodes []),
    λ id. first_replica_of id nodes,
    for_each-emit _ (λ id. failover_of (first_replica_of id nodes))
        (λ id. fail_over-emit (first_replica_of id nodes)) _ l,
    λ id. first_replica_of-IsFirstReplica id nodes,
    λ id. occurrences-perm id (p (master_id_set nodes [])) ∙ occurs_once id nodes [] refl,
  )
