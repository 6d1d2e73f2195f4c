-- ===== src/Go/Text/Words.antt =====
-- Texts made of words without blanks: how package strings takes them apart.
use mathlib.Core.List.{append_assoc, append-nil}
use kubernetes_redis_operato.Prelude.{ℕ, ◌≡◌, refl, false, true, [], ◌∷◌, ◌++◌, ap}
use kubernetes_redis_operato.Go.Text.{
  Str, is_space, trim_left, trim_right, trim_space, words, close, fields,
}
use kubernetes_redis_operato.Go.Text.Pieces.{Avoids}

-- There is no blank in the text.
abbrev pub Solid : Str → Type 0
Solid [] = Unit {0}
Solid (c ∷ s) = (is_space c ≡ false) × Solid s

-- A text that `strings.Fields` gives back.
abbrev pub IsWord : Str → Type 0
IsWord [] = ⊥
IsWord (c ∷ s) = Solid (c ∷ s)

pub Solid-append : (s t : Str) → Solid s → Solid t → Solid (s ++ t)
Solid-append [] t h k = k
Solid-append (c ∷ s) t h k = (h.0, Solid-append s t h.1 k)

pub IsWord-Solid : (s : Str) → IsWord s → Solid s
IsWord-Solid [] h = tt
IsWord-Solid (c ∷ s) h = h

pub IsWord-append : (s t : Str) → IsWord s → Solid t → IsWord (s ++ t)
IsWord-append [] t h k = elim h [ ]
IsWord-append (c ∷ s) t h k = (h.0, Solid-append s t h.1 k)

-- A word has no blank, so no end of a line.
pub Solid-Avoids : (s : Str) (sep : ℕ) → is_space sep ≡ true → Solid s → Avoids sep s
Solid-Avoids [] sep b h = tt
Solid-Avoids (c ∷ s) sep b h = (λ (e : c ≡ sep). cc (ap is_space e), Solid-Avoids s sep b h.1)

words_piece : (w rest : Str) → Solid w → words (w ++ b' ' ∷ rest) ≡ (w, close (words rest))
unfolding words is_space
words_piece [] rest h = refl
words_piece (c ∷ w) rest h = rw (h.0, words_piece w rest h.1)

words_end : (w : Str) → Solid w → words w ≡ (w, [])
unfolding words
words_end [] h = refl
words_end (c ∷ w) h = rw (h.0, words_end w h.1)

pub fields_piece : (w rest : Str) → IsWord w → fields (w ++ b' ' ∷ rest) ≡ w ∷ fields rest
unfolding fields
fields_piece [] rest h = elim h [ ]
fields_piece (c ∷ w) rest h = rw (words_piece (c ∷ w) rest h)

pub fields_end : (w : Str) → IsWord w → fields w ≡ w ∷ []
unfolding fields
fields_end [] h = elim h [ ]
fields_end (c ∷ w) h = rw (words_end (c ∷ w) h)

trim_right-IsWord : (w : Str) → IsWord w → trim_right w ≡ w
unfolding trim_right
trim_right-IsWord [] h = elim h [ ]
trim_right-IsWord (c ∷ []) h = rw (h.0)
trim_right-IsWord (c ∷ d ∷ w) h = rw (trim_right-IsWord (d ∷ w) h.1)

-- Nothing is taken from a text that ends with a word.
trim_right_lem : (s w : Str) → IsWord w → trim_right (s ++ w) ≡ s ++ w
unfolding trim_right
trim_right_lem [] w h = trim_right-IsWord w h
trim_right_lem (c ∷ []) (d ∷ w) h = rw (trim_right-IsWord (d ∷ w) h)
trim_right_lem (c ∷ []) [] h = elim h [ ]
trim_right_lem (c ∷ d ∷ s) w h = rw (trim_right_lem (d ∷ s) w h)

trim_left_lem : (w s : Str) → IsWord w → trim_left (w ++ s) ≡ w ++ s
unfolding trim_left
trim_left_lem [] s h = elim h [ ]
trim_left_lem (c ∷ w) s h = rw (h.0)

-- A text that begins with a word and ends with one keeps all its characters.
pub trim_space_lem :
    (w s v : Str) → IsWord w → IsWord v → trim_space (w ++ (s ++ v)) ≡ w ++ (s ++ v)
unfolding trim_space
trim_space_lem w s v h k =
    rw (trim_left_lem w (s ++ v) h, ← append_assoc w s v) (trim_right_lem (w ++ s) v k)

pub trim_space-IsWord : (w : Str) → IsWord w → trim_space w ≡ w
unfolding trim_space
trim_space-IsWord w h =
    let kept : trim_left w ≡ w = rw (← append-nil w) (trim_left_lem w [] h) in
    rw kept (trim_right-IsWord w h)

-- A blank at the end is taken away.
trim_right_blank : (s : Str) (b : ℕ) → is_space b ≡ true → trim_right (s ++ b ∷ []) ≡ trim_right s
unfolding trim_right
trim_right_blank [] b h = rw h refl
trim_right_blank (c ∷ s) b h = rw (trim_right_blank s b h) refl

pub trim_space_return :
    (w s v : Str) (b : ℕ)
    → IsWord w
    → IsWord v
    → is_space b ≡ true
    → trim_space ((w ++ (s ++ v)) ++ b ∷ []) ≡ w ++ (s ++ v)
unfolding trim_space
trim_space_return w s v b h k e =
    rw
      (
        append_assoc w (s ++ v) (b ∷ []),
        trim_left_lem w ((s ++ v) ++ b ∷ []) h,
        ← append_assoc w (s ++ v) (b ∷ []),
        trim_right_blank (w ++ (s ++ v)) b e,
        ← append_assoc w s v,
      )
      (trim_right_lem (w ++ s) v k)
