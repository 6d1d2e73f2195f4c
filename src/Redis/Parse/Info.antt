-- ===== src/Redis/Parse/Info.antt =====
-- `parseInfoOutput` and `parseClusterInfo` of internal/redis/client.go read what a server writes.
use kubernetes_redis_operato.Prelude.{
  ℕ, ◌<◌, ◌^◌, ◌≡◌, refl, ◌∙◌, ap, false, some, [], ◌∷◌, ◌++◌, arith,
}
use kubernetes_redis_operato.Prelude.Int.{pos}
use kubernetes_redis_operato.Go.Text.{Str, is_space, codes, str_eq, split, has_prefix, trim_space}
use kubernetes_redis_operato.Go.Text.Pieces.{Avoids, split_piece, cut_piece, Avoids-append}
use kubernetes_redis_operato.Go.Text.Words.{
  IsWord, IsWord-Solid, Solid-Avoids, trim_space-IsWord, trim_space_return,
}
use kubernetes_redis_operato.Go.Number.{itoa}
use kubernetes_redis_operato.Go.Number.RoundTrip.{itoa-IsWord, atoi-itoa}
use kubernetes_redis_operato.Go.Map.{Map, insert, lookup, or_zero, lookup-insert}
use kubernetes_redis_operato.Redis.Loops.{All-map, All-append}
use kubernetes_redis_operato.Redis.Node.{ClusterInfo}
use kubernetes_redis_operato.Redis.Parse.{
  cluster_info_of, info_number, info_line, info_lines, parse_info_output, parse_cluster_info,
}
use kubernetes_redis_operato.Redis.Parse.Print.{All}

abbrev print_pair : Str × Str → Str
print_pair (k, v) = k ++ (b':' ∷ v)

-- Lines that end with a carriage return and a newline.
unfoldable pub print_info : Map Str → Str
print_info [] = []
print_info (kv ∷ m) = (print_pair kv ++ 13 ∷ []) ++ b'\n' ∷ print_info m

-- A key has no colon, and is no comment.
abbrev pub IsKey : Str → Type 0
IsKey k = IsWord k × Avoids b':' k × Avoids b'#' k

abbrev pub IsPair : Str × Str → Type 0
IsPair (k, v) = IsKey k × IsWord v

-- The pairs are stored one after the other.
abbrev pub insert_all : Map Str → Map Str → Map Str
insert_all [] m = m
insert_all ((k, v) ∷ kvs) m = insert_all kvs (insert k v m)

no_comment : (k s : Str) → IsWord k → Avoids b'#' k → has_prefix (k ++ s) b'#' ≡ false
no_comment [] s h a = elim h [ ]
no_comment (c ∷ k) s h a = ground arith

no_blank_line : (k s : Str) → IsWord k → str_eq (k ++ s) [] ≡ false
unfolding str_eq
no_blank_line [] s h = elim h [ ]
no_blank_line (c ∷ k) s h = refl

info_line-print_pair :
    (k v : Str) (m : Map Str) → IsPair (k, v) → info_line (print_pair (k, v)) m ≡ insert k v m
unfolding info_line
info_line-print_pair k v m ((h, colon, hash), w) =
    rw
      (
        no_blank_line k (b':' ∷ v) h,
        no_comment k (b':' ∷ v) h hash,
        cut_piece b':' k v colon,
        trim_space-IsWord k h,
        trim_space-IsWord v w,
      )
      refl

print_pair-Avoids : (k v : Str) → IsPair (k, v) → Avoids b'\n' (print_pair (k, v) ++ 13 ∷ [])
unfolding is_space
print_pair-Avoids k v ((h, _, _), w) =
    Avoids-append b'\n' (k ++ (b':' ∷ v)) (13 ∷ [])
      (Avoids-append b'\n' k (b':' ∷ v) (Solid-Avoids k b'\n' refl (IsWord-Solid k h))
        (omega arith, Solid-Avoids v b'\n' refl (IsWord-Solid v w)))
      (omega arith)

trim_space-print_pair :
    (k v : Str) → IsPair (k, v) → trim_space (print_pair (k, v) ++ 13 ∷ []) ≡ print_pair (k, v)
unfolding is_space
trim_space-print_pair k v ((h, _, _), w) = trim_space_return k (b':' ∷ []) v 13 h w refl

info_lines-print_info :
    (kvs m : Map Str)
    → All IsPair kvs
    → info_lines (split b'\n' (print_info kvs)) m ≡ insert_all kvs m
unfolding print_info info_lines split
info_lines-print_info [] m h = refl
info_lines-print_info ((k, v) ∷ kvs) m h =
    ap (λ ls. info_lines ls m)
      (split_piece b'\n' (print_pair (k, v) ++ 13 ∷ []) (print_info kvs)
        (print_pair-Avoids k v h.0))
    ∙ ap (λ m'. info_lines (split b'\n' (print_info kvs)) m')
        (ap (λ line. info_line line m) (trim_space-print_pair k v h.0)
          ∙ info_line-print_pair k v m h.0)
    ∙ info_lines-print_info kvs (insert k v m) h.1

-- What a server writes as lines `key:value` is read as those pairs, where of two values of one key
-- the later one counts.
pub parse_info_output-print_info :
    (kvs : Map Str) → All IsPair kvs → parse_info_output (print_info kvs) ≡ insert_all kvs []
unfolding parse_info_output
parse_info_output-print_info kvs h = info_lines-print_info kvs [] h

-- What a server tells of its cluster, with further pairs that the operator does not read.
pub record Told : Type 0 where
  pub state : Str
  pub slots_assigned : ℕ
  pub slots_ok : ℕ
  pub slots_pfail : ℕ
  pub slots_fail : ℕ
  pub known_nodes : ℕ
  pub cluster_size : ℕ
  pub more : Map Str

-- The keys that the operator reads, with what the server tells.
abbrev known_pairs : Told → Map Str
known_pairs t =
    (codes "cluster_state", t.state)
    ∷ (codes "cluster_slots_assigned", itoa t.slots_assigned)
    ∷ (codes "cluster_slots_ok", itoa t.slots_ok)
    ∷ (codes "cluster_slots_pfail", itoa t.slots_pfail)
    ∷ (codes "cluster_slots_fail", itoa t.slots_fail)
    ∷ (codes "cluster_known_nodes", itoa t.known_nodes)
    ∷ (codes "cluster_size", itoa t.cluster_size)
    ∷ []

abbrev pub told_pairs : Told → Map Str
told_pairs t = known_pairs t ++ t.more

abbrev pub info_seen : Told → ClusterInfo
info_seen t = record {
  state = t.state;
  slots_assigned = pos t.slots_assigned;
  slots_ok = pos t.slots_ok;
  slots_pfail = pos t.slots_pfail;
  slots_fail = pos t.slots_fail;
  known_nodes = pos t.known_nodes;
  cluster_size = pos t.cluster_size;
}

-- Not one of the keys that the operator reads.
abbrev IsOther : Str × Str → Type 0
IsOther (k, v) =
    All (λ j. str_eq k j ≡ false)
      (codes "cluster_state"
        ∷ codes "cluster_slots_assigned"
        ∷ codes "cluster_slots_ok"
        ∷ codes "cluster_slots_pfail"
        ∷ codes "cluster_slots_fail"
        ∷ codes "cluster_known_nodes"
        ∷ codes "cluster_size"
        ∷ [])

pub record IsTold (t : Told) : Type 0 where
  pub state : IsWord t.state
  pub fits :
      All
        (λ n. n < 2 ^ 63)
        (t.slots_assigned ∷ t.slots_ok ∷ t.slots_pfail ∷ t.slots_fail ∷ t.known_nodes
          ∷ t.cluster_size ∷ [])
  pub pairs : All IsPair t.more
  pub others : All IsOther t.more

lookup-insert_all :
    (j : Str) (kvs m : Map Str)
    → All (λ kv. str_eq kv.0 j ≡ false) kvs
    → lookup j (insert_all kvs m) ≡ lookup j m
lookup-insert_all j [] m h = refl
lookup-insert_all j ((k, v) ∷ kvs) m h =
    lookup-insert_all j kvs (insert k v m) h.1 ∙ lookup-insert j k v m ∙ rw h.0 refl

info_number-insert_all :
    (j : Str) (n : ℕ) (m : Map Str)
    → lookup j m ≡ some (itoa n)
    → n < 2 ^ 63
    → info_number m j ≡ pos n
info_number-insert_all j n m e h = rw (e, atoi-itoa n h) refl

state-IsKey : IsKey (codes "cluster_state") × IsKey (codes "cluster_size")
unfolding is_space
state-IsKey = ground arith

slots-IsKey :
    IsKey (codes "cluster_slots_assigned")
    × IsKey (codes "cluster_slots_ok")
    × IsKey (codes "cluster_slots_pfail")
    × IsKey (codes "cluster_slots_fail")
unfolding is_space
slots-IsKey = ground arith

known_nodes-IsKey : IsKey (codes "cluster_known_nodes")
unfolding is_space
known_nodes-IsKey = ground arith

module _ (t : Told) (h : IsTold t) where
  known_pairs-IsPair : All IsPair (known_pairs t)
  known_pairs-IsPair = (
    (state-IsKey.0, h.state),
    (
      (slots-IsKey.0, itoa-IsWord t.slots_assigned),
      (
        (slots-IsKey.1, itoa-IsWord t.slots_ok),
        (
          (slots-IsKey.2, itoa-IsWord t.slots_pfail),
          (
            (slots-IsKey.3, itoa-IsWord t.slots_fail),
            (
              (known_nodes-IsKey, itoa-IsWord t.known_nodes),
              ((state-IsKey.1, itoa-IsWord t.cluster_size), tt),
            ),
          ),
        ),
      ),
    ),
  )

  told : Map Str
  told = insert_all (told_pairs t) []

  -- The pairs in front are found behind those that the operator does not read.
  lookup-told :
      (j v : Str)
      → All (λ kv. str_eq kv.0 j ≡ false) t.more
      → lookup j (known_pairs t) ≡ some v
      → lookup j told ≡ some v
  unfolding told insert str_eq
  lookup-told j v k e = lookup-insert_all j t.more (known_pairs t) k ∙ e

  number :
      (j : Str) (n : ℕ)
      → All (λ kv. str_eq kv.0 j ≡ false) t.more
      → lookup j (known_pairs t) ≡ some (itoa n)
      → n < 2 ^ 63
      → info_number told j ≡ pos n
  number j n k e = info_number-insert_all j n told (lookup-told j (itoa n) k e)

  info_of_told : cluster_info_of told ≡ info_seen t
  unfolding lookup str_eq
  info_of_told =
      let f = h.fits in
      let o = h.others in
      let state =
        lookup-told (codes "cluster_state") t.state (All-map t.more (λ kv k. k.0) o) refl in
      let assigned =
        number (codes "cluster_slots_assigned") t.slots_assigned (All-map t.more (λ kv k. k.1.0) o)
          refl f.0 in
      let served =
        number (codes "cluster_slots_ok") t.slots_ok (All-map t.more (λ kv k. k.1.1.0) o) refl
          f.1.0 in
      let pfail =
        number (codes "cluster_slots_pfail") t.slots_pfail (All-map t.more (λ kv k. k.1.1.1.0) o)
          refl f.1.1.0 in
      let failed =
        number (codes "cluster_slots_fail") t.slots_fail (All-map t.more (λ kv k. k.1.1.1.1.0) o)
          refl f.1.1.1.0 in
      let known =
        number (codes "cluster_known_nodes") t.known_nodes
          (All-map t.more (λ kv k. k.1.1.1.1.1.0) o) refl f.1.1.1.1.0 in
      let size =
        number (codes "cluster_size") t.cluster_size (All-map t.more (λ kv k. k.1.1.1.1.1.1.0) o)
          refl f.1.1.1.1.1.0 in
      λ i. record {
        state = or_zero [] (state i);
        slots_assigned = assigned i;
        slots_ok = served i;
        slots_pfail = pfail i;
        slots_fail = failed i;
        known_nodes = known i;
        cluster_size = size i;
      }

  -- The lines of CLUSTER INFO that a server writes, those among them that the operator does not read
  -- included, are parsed into what the server tells.
  pub parse_cluster_info-print_info : parse_cluster_info (print_info (told_pairs t)) ≡ info_seen t
  unfolding parse_cluster_info told
  parse_cluster_info-print_info =
      ap cluster_info_of (
        parse_info_output-print_info (told_pairs t)
          (All-append IsPair (known_pairs t) t.more known_pairs-IsPair h.pairs))
      ∙ info_of_told
