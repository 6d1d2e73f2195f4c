-- ===== src/Redis/Parse/RoundTrip.antt =====
-- `parseClusterNodes` of internal/redis/client.go reads what a server writes.
use mathlib.Core.List.{append_assoc, append-nil}
use kubernetes_redis_operato.Prelude.{
  ℕ, ◌==◌, ◌≡◌, refl, ◌∙◌, ap, false, none, some, List, [], ◌∷◌, ◌++◌, map, arith, Bool-cases,
  Option-cases, inl, inr, ==_iff,
}
use kubernetes_redis_operato.Go.Text.{Str, is_space, str_eq, split, cut, fields, trim_space}
use kubernetes_redis_operato.Go.Text.Pieces.{
  Avoids, split_end, split_piece, cut-none, cut_piece, Avoids-append,
}
use kubernetes_redis_operato.Go.Text.Words.{
  IsWord, Solid, IsWord-Solid, IsWord-append, Solid-append, Solid-Avoids, fields_piece, fields_end,
  trim_space_lem, trim_space-IsWord,
}
use kubernetes_redis_operato.Go.Number.{itoa}
use kubernetes_redis_operato.Go.Number.RoundTrip.{itoa-IsWord, itoa-Avoids, atoi-itoa}
use kubernetes_redis_operato.Redis.Parse.{
  keep_node, parse_slot_range, parse_slots, node_of_fields, parse_lines, parse_cluster_nodes,
}
use kubernetes_redis_operato.Redis.Parse.Print.{
  Range, Entry, behind, print_range, print_moving, print_slots, print_fields, print_entry,
  print_nodes, seen_range, seen, All, IsFlag, IsRange, IsListed,
}

-- One range, or one slot, is read back.
parse_slot_range-print_range :
    (r : Range) → IsRange r → parse_slot_range (print_range r) ≡ some (seen_range r)
unfolding parse_slot_range
parse_slot_range-print_range (a, b) h = elim (Bool-cases (a == b)) [
  | inl same ↦
      rw
        (
          same,
          cut-none b'-' (itoa a) (itoa-Avoids b'-' refl a),
          atoi-itoa a h.0,
          (==_iff a b).0 same,
        )
        refl
  | inr other ↦
      rw
        (
          other,
          cut_piece b'-' (itoa a) (itoa b) (itoa-Avoids b'-' refl a),
          atoi-itoa a h.0,
          atoi-itoa b h.1,
        )
        refl
]

-- What stands between brackets is no range.
parse_slot_range-print_moving : (s : Str) → parse_slot_range (print_moving s) ≡ none
unfolding parse_slot_range cut
parse_slot_range-print_moving s = elim (Option-cases (cut b'-' s)) [
  | inl e ↦ rw e refl
  | inr ((a, b), e) ↦ rw e refl
]

parse_moving : (moving : List Str) → parse_slots (map print_moving moving) ≡ []
unfolding parse_slots
parse_moving [] = refl
parse_moving (s ∷ ss) = rw (parse_slot_range-print_moving s, parse_moving ss) refl

parse_slots-print_slots :
    (ranges : List Range) (moving : List Str)
    → All IsRange ranges
    → parse_slots (print_slots ranges moving) ≡ map seen_range ranges
unfolding parse_slots
parse_slots-print_slots [] moving h = parse_moving moving
parse_slots-print_slots (r ∷ rs) moving h =
    rw (parse_slot_range-print_range r h.0, parse_slots-print_slots rs moving h.1) refl

split-behind :
    (sep : ℕ) (s : Str) (ss : List Str)
    → Avoids sep s
    → All (Avoids sep) ss
    → split sep (s ++ behind sep ss) ≡ s ∷ ss
split-behind sep s [] h k = rw (append-nil s) (split_end sep s h)
split-behind sep s (t ∷ ss) h k =
    split_piece sep s (t ++ behind sep ss) h ∙ ap (λ ts. s ∷ ts) (split-behind sep t ss k.0 k.1)

fields-behind :
    (w : Str) (ws : List Str) → IsWord w → All IsWord ws → fields (w ++ behind b' ' ws) ≡ w ∷ ws
fields-behind w [] h k = rw (append-nil w) (fields_end w h)
fields-behind w (v ∷ ws) h k =
    fields_piece w (v ++ behind b' ' ws) h ∙ ap (λ ts. w ∷ ts) (fields-behind v ws k.0 k.1)

IsFlag-Avoids : (ss : List Str) → All IsFlag ss → All (Avoids b',') ss
IsFlag-Avoids [] h = tt
IsFlag-Avoids (s ∷ ss) h = (h.0.1, IsFlag-Avoids ss h.1)

flags-Solid : (ss : List Str) → All IsFlag ss → Solid (behind b',' ss)
unfolding is_space
flags-Solid [] h = tt
flags-Solid (s ∷ ss) h =
    (refl, Solid-append s (behind b',' ss) (IsWord-Solid s h.0.0) (flags-Solid ss h.1))

print_range-IsWord : (r : Range) → IsWord (print_range r)
unfolding is_space
print_range-IsWord (a, b) = elim (Bool-cases (a == b)) [
  | inl same ↦ rw same (itoa-IsWord a)
  | inr other ↦ rw other (
      IsWord-append (itoa a) (b'-' ∷ itoa b) (itoa-IsWord a)
        (refl, IsWord-Solid (itoa b) (itoa-IsWord b)))
]

moving-IsWord : (moving : List Str) → All Solid moving → All IsWord (map print_moving moving)
unfolding is_space
moving-IsWord [] h = tt
moving-IsWord (s ∷ ss) h = ((refl, h.0), moving-IsWord ss h.1)

print_slots-IsWord :
    (ranges : List Range) (moving : List Str)
    → All Solid moving
    → All IsWord (print_slots ranges moving)
print_slots-IsWord [] moving h = moving-IsWord moving h
print_slots-IsWord (r ∷ rs) moving h = (print_range-IsWord r, print_slots-IsWord rs moving h)

Solid-cons-IsWord : (s t : Str) → Solid s → Solid t → IsWord (s ++ b'@' ∷ t)
unfolding is_space
Solid-cons-IsWord [] t h k = (refl, k)
Solid-cons-IsWord (c ∷ s) t h k = (h.0, Solid-append s (b'@' ∷ t) h.1 (refl, k))

print_fields-IsWord : (e : Entry) → IsListed e → All IsWord (print_fields e)
print_fields-IsWord e h = (
  Solid-cons-IsWord e.addr e.bus h.addr.0 h.bus,
  (
    IsWord-append e.flag (behind b',' e.more_flags) h.flag.0
        (flags-Solid e.more_flags h.more_flags),
    (
      h.master,
      (
        itoa-IsWord e.ping,
        (
          itoa-IsWord e.pong,
          (itoa-IsWord e.epoch, (h.link, print_slots-IsWord e.ranges e.moving h.moving)),
        ),
      ),
    ),
  ),
)

-- The line of an entry is taken apart into its fields.
fields-print_entry : (e : Entry) → IsListed e → fields (print_entry e) ≡ e.id ∷ print_fields e
unfolding print_entry
fields-print_entry e h = fields-behind e.id (print_fields e) h.id (print_fields-IsWord e h)

-- The fields are those of the node that is seen.
node_of_fields-print_fields :
    (e : Entry) → IsListed e → node_of_fields (e.id ∷ print_fields e) ≡ some (seen e)
unfolding node_of_fields
node_of_fields-print_fields e h =
    rw
      (
        cut_piece b'@' e.addr e.bus h.addr.1,
        split-behind b',' e.flag e.more_flags h.flag.1 (IsFlag-Avoids e.more_flags h.more_flags),
        atoi-itoa e.ping h.ping,
        atoi-itoa e.pong h.pong,
        atoi-itoa e.epoch h.epoch,
        parse_slots-print_slots e.ranges e.moving h.ranges,
      )
      refl

-- Words behind each other end with a word.
behind_last :
    (w : Str) (ws : List Str)
    → IsWord w
    → All IsWord ws
    → (s : Str) × (v : Str) × (behind b' ' (w ∷ ws) ≡ s ++ v) × IsWord v
behind_last w [] h k = (b' ' ∷ [], w, rw (append-nil w) refl, h)
behind_last w (x ∷ ws) h k =
    let (s, v, e, word) = behind_last x ws k.0 k.1 in
    (b' ' ∷ (w ++ s), v, rw (e, append_assoc w s v) refl, word)

behind-Avoids : (ws : List Str) → All IsWord ws → Avoids b'\n' (behind b' ' ws)
unfolding is_space
behind-Avoids [] h = tt
behind-Avoids (w ∷ ws) h = (
  omega arith,
  Avoids-append b'\n' w (behind b' ' ws) (Solid-Avoids w b'\n' refl (IsWord-Solid w h.0))
      (behind-Avoids ws h.1),
)

trim_space-behind :
    (w : Str) (ws : List Str)
    → IsWord w
    → All IsWord ws
    → trim_space (w ++ behind b' ' ws) ≡ w ++ behind b' ' ws
trim_space-behind w [] h k = rw (append-nil w) (trim_space-IsWord w h)
trim_space-behind w (v ∷ ws) h k =
    let (s, x, last, word) = behind_last v ws k.0 k.1 in rw last (trim_space_lem w s x h word)

str_eq-IsWord : (w s : Str) → IsWord w → str_eq (w ++ s) [] ≡ false
unfolding str_eq
str_eq-IsWord [] s h = elim h [ ]
str_eq-IsWord (c ∷ w) s h = refl

module _ (e : Entry) (h : IsListed e) where
  words : All IsWord (print_fields e)
  words = print_fields-IsWord e h

  trim_space-print_entry : trim_space (print_entry e) ≡ print_entry e
  unfolding print_entry
  trim_space-print_entry = trim_space-behind e.id (print_fields e) h.id words

  print_entry-Avoids : Avoids b'\n' (print_entry e)
  unfolding print_entry is_space
  print_entry-Avoids =
      Avoids-append b'\n' e.id (behind b' ' (print_fields e))
        (Solid-Avoids e.id b'\n' refl (IsWord-Solid e.id h.id))
        (behind-Avoids (print_fields e) words)

  str_eq-print_entry : str_eq (print_entry e) [] ≡ false
  unfolding print_entry
  str_eq-print_entry = str_eq-IsWord e.id (behind b' ' (print_fields e)) h.id

  -- A line in front gives the node of its entry.
  parse_lines-print_entry :
      (lines : List Str) → parse_lines (print_entry e ∷ lines) ≡ seen e ∷ parse_lines lines
  unfolding parse_lines
  parse_lines-print_entry lines =
      rw (trim_space-print_entry, str_eq-print_entry, fields-print_entry e h)
        (ap (λ o. keep_node o (parse_lines lines)) (node_of_fields-print_fields e h))

parse_lines-print_nodes :
    (es : List Entry) → All IsListed es → parse_lines (split b'\n' (print_nodes es)) ≡ map seen es
unfolding print_nodes parse_lines
parse_lines-print_nodes [] h = refl
parse_lines-print_nodes (e ∷ es) h =
    ap parse_lines (split_piece b'\n' (print_entry e) (print_nodes es) (print_entry-Avoids e h.0))
    ∙ parse_lines-print_entry e h.0 (split b'\n' (print_nodes es))
    ∙ ap (λ ns. seen e ∷ ns) (parse_lines-print_nodes es h.1)

-- The text that a server writes for its entries is parsed into the nodes that the operator is to see,
-- in their order and with all their ranges of slots; slots that are on the move are left out.
pub parse_cluster_nodes-print_nodes :
    (es : List Entry) → All IsListed es → parse_cluster_nodes (print_nodes es) ≡ map seen es
unfolding parse_cluster_nodes
parse_cluster_nodes-print_nodes es h = parse_lines-print_nodes es h
