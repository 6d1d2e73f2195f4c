-- ===== src/Controller/Lifecycle/Lookups.antt =====
-- Where the servers list no node by an address, the look-ups of `nodeIDForAddr` in
-- internal/redis/cluster.go find nothing, and what rests on them only asks for lists of nodes.
use kubernetes_redis_operato.Prelude.{
  ℕ, ◌/◌, ◌||◌, ◌≡◌, ◌≢◌, refl, sym, ap, ◌∙◌, inl, inr, ◌⊎◌, List, [], ◌∷◌, ◌++◌, length,
  Bool-cases,
}
use kubernetes_redis_operato.Prelude.Int.{ℤ, pos, ltb_ℤ}
use kubernetes_redis_operato.Go.Text.{Str, str_eq, str_eq_iff}
use kubernetes_redis_operato.Go.Map.{Map, lookup, or_zero}
use kubernetes_redis_operato.Redis.Effect.{
  Error, Result, Command, Log, M, emit, for_each, ignoring, and_then, answer_cases,
}
use kubernetes_redis_operato.Redis.Loops.{All, All-append, All-map, emit-append}
use kubernetes_redis_operato.Redis.Node.{ClusterNode, node_id_for_addr, total_hash_slots}
use kubernetes_redis_operato.Redis.Client.{RedisClient, Runtime}
use kubernetes_redis_operato.Redis.Members.{remove}
use kubernetes_redis_operato.Redis.Rebalance.{
  give, give_all, donate, excess_of, slot_counts, master_addrs, rebalance_slots,
}
use kubernetes_redis_operato.Controller.Names.{map_addr}

-- The list of the nodes is asked for.
pub data IsReading : Command → Type 0 where
  reads : (addr : Str) → IsReading (Command.cluster_nodes addr)

-- Whatever a server lists, no node has this address.
abbrev pub Unlisted : RedisClient → Str → Type 0
Unlisted c addr =
    (l : Log) (nodes : List ClusterNode)
    → c.cluster_nodes l ≡ inr nodes
    → All (λ n. n.addr ≢ addr) nodes

-- The commands between the logs are readings, and the result is no halt.
abbrev pub Reads : M (Unit {0}) → Type 0
Reads m =
    (l : Log)
    → (es : List Command) × ((m l).1 ≡ emit es l)
      × All IsReading es
      × (((m l).0 ≡ Result.ok tt) ⊎ ((e : Error) × ((m l).0 ≡ Result.err e)))

pub node_id_for_addr-eq-[] :
    (nodes : List ClusterNode) (addr : Str)
    → All (λ n. n.addr ≢ addr) nodes
    → node_id_for_addr nodes addr ≡ []
unfolding node_id_for_addr
node_id_for_addr-eq-[] [] addr h = refl
node_id_for_addr-eq-[] (n ∷ nodes) addr h = elim (Bool-cases (str_eq n.addr addr)) [
  | inl e ↦ absurd (h.0 ((str_eq_iff n.addr addr).0 e))
  | inr e ↦ rw e (node_id_for_addr-eq-[] nodes addr h.1)
]

module _ (c : RedisClient) where
  -- Removing such a node fails behind the list of the nodes.
  pub remove-Unlisted :
      (missing : Str → Error) (cluster removed : Str) (l : Log)
      → Unlisted c removed
      → (e : Error) × (remove c missing cluster removed l
          ≡ (Result.err e, Command.cluster_nodes cluster ∷ l))
  unfolding remove
  remove-Unlisted missing cluster removed l h =
      elim (answer_cases (c.cluster_nodes (Command.cluster_nodes cluster ∷ l))) [
        | inl (e, p) ↦ (e, rw p refl)
        | inr (nodes, p) ↦
            (missing removed, rw (p, node_id_for_addr-eq-[] nodes removed (h _ nodes p)) refl)
      ]

  pub ignoring-remove-Unlisted :
      (missing : Str → Error) (cluster removed : Str) (l : Log)
      → Unlisted c removed
      → ignoring (remove c missing cluster removed) l
        ≡ (Result.ok tt, Command.cluster_nodes cluster ∷ l)
  ignoring-remove-Unlisted missing cluster removed l h =
      rw ((remove-Unlisted missing cluster removed l h).1) refl

  module _ (fuel : ℕ) (target : ℤ) (counts : Map ℤ) (donor_id donor_addr : Str)
      (nodes : List ClusterNode) where
    give_unlisted :
        (excess : ℤ) (receiver : Str) (l : Log)
        → node_id_for_addr nodes receiver ≡ []
        → give c fuel target counts donor_id donor_addr nodes excess receiver l
          ≡ (Result.ok excess, l)
    unfolding give str_eq
    give_unlisted excess receiver l e =
        elim (Bool-cases (str_eq receiver donor_addr || ltb_ℤ excess (pos 1))) [
          | inl q ↦ rw q refl
          | inr q ↦ rw (q, e) refl
        ]

    give_all_unlisted :
        (excess : ℤ) (receivers : List Str) (l : Log)
        → All (λ r. node_id_for_addr nodes r ≡ []) receivers
        → give_all c fuel target counts donor_id donor_addr nodes excess receivers l
          ≡ (Result.ok tt, l)
    unfolding give_all
    give_all_unlisted excess [] l h = refl
    give_all_unlisted excess (r ∷ rs) l h =
        rw (give_unlisted excess r l h.0) (give_all_unlisted excess rs l h.1)

  donate-Unlisted :
      (fuel : ℕ) (target : ℤ) (counts : Map ℤ) (receivers : List Str) (names : Map Str)
      (entry : Str × ℤ)
      → All (Unlisted c) receivers
      → Reads (donate c fuel target counts receivers names entry)
  unfolding donate
  donate-Unlisted fuel target counts receivers names (id, count) h l =
      let donor = or_zero [] (lookup id names) in
      let e = Command.cluster_nodes donor in
      elim (Bool-cases (ltb_ℤ (pos 0) (excess_of count target))) [
        | inr q ↦ rw q ([], refl, tt, inl refl)
        | inl q ↦ rw q (elim (answer_cases (c.cluster_nodes (e ∷ l))) [
          | inl (x, p) ↦ rw p (e ∷ [], refl, (IsReading.reads donor, tt), inr (x, refl))
          | inr (nodes, p) ↦
              let none_listed =
                All-map receivers
                  (λ r (u : Unlisted c r). node_id_for_addr-eq-[] nodes r (u _ nodes p)) h in
              rw
                (
                  p,
                  give_all_unlisted fuel target counts id donor nodes (excess_of count target)
                      receivers _ none_listed,
                )
                (e ∷ [], refl, (IsReading.reads donor, tt), inl refl)
        ])
      ]

  for_each-Reads :
      {A : Type 0} (body : A → M (Unit {0})) (xs : List A)
      → ((a : A) → Reads (body a))
      → Reads (for_each body xs)
  unfolding for_each
  for_each-Reads body [] h l = ([], refl, tt, inl refl)
  for_each-Reads body (x ∷ xs) h l = and_then-Reads (body x l) l (h x l) (for_each-Reads body xs h)
    where
      and_then-Reads :
          (r : Result (Unit {0}) × Log) (l : Log)
          → (es : List Command) × (r.1 ≡ emit es l)
            × All IsReading es
            × ((r.0 ≡ Result.ok tt) ⊎ ((e : Error) × (r.0 ≡ Result.err e)))
          → Reads (for_each body xs)
          → (es : List Command) × ((and_then r (λ _. for_each body xs)).1 ≡ emit es l)
            × All IsReading es
            × (((and_then r (λ _. for_each body xs)).0 ≡ Result.ok tt)
                ⊎ ((e : Error) × ((and_then r (λ _. for_each body xs)).0 ≡ Result.err e)))
      and_then-Reads (Result.ok _, l') l (es, q, p, d) k =
          let (fs, q', p', d') = k l' in
          (
            es ++ fs,
            q' ∙ ap (emit fs) q ∙ sym (emit-append es fs l),
            All-append IsReading es fs p p',
            d',
          )
      and_then-Reads (Result.err e, l') l (es, q, p, d) k = (es, q, p, inr (e, refl))
      and_then-Reads (Result.halt e, l') l (es, q, p, d) k = elim d [ inl x ↦ cc | inr (_, x) ↦ cc ]

  pub rebalance_slots-Reads :
      (rt : Runtime) (fuel : ℕ) (first : Str) (rest : List Str)
      → All (Unlisted c) (first ∷ rest)
      → Reads (rebalance_slots c rt fuel (first ∷ rest))
  unfolding rebalance_slots
  rebalance_slots-Reads rt fuel first rest h l =
      let e = Command.cluster_nodes first in
      elim (answer_cases (c.cluster_nodes (e ∷ l))) [
        | inl (x, p) ↦ rw p (e ∷ [], refl, (IsReading.reads first, tt), inr (x, refl))
        | inr (nodes, p) ↦
            let (es, q, all, d) =
              for_each-Reads
                (donate c fuel (pos (total_hash_slots / length (first ∷ rest)))
                  (slot_counts [] nodes) (first ∷ rest) (master_addrs [] nodes))
                (rt.visit (e ∷ l) (slot_counts [] nodes))
                (λ entry.
                  donate-Unlisted fuel (pos (total_hash_slots / length (first ∷ rest)))
                    (slot_counts [] nodes) (first ∷ rest) (master_addrs [] nodes) entry h)
                (e ∷ l) in
            rw p (e ∷ es, q, (IsReading.reads first, all), d)
      ]

pub All-map_addr :
    (P : Str → Type 0) (f : ℤ → Str) (is : List ℤ) → ((i : ℤ) → P (f i)) → All P (map_addr f is)
All-map_addr P f [] h = tt
All-map_addr P f (i ∷ is) h = (h i, All-map_addr P f is h)
