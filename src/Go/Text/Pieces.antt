-- ===== src/Go/Text/Pieces.antt =====
-- Where a text is taken apart that was put together with a separator.
use kubernetes_redis_operato.Prelude.{
  ℕ, ◌≡◌, ◌≢◌, refl, true, false, ◌==◌, none, some, [], ◌∷◌, ◌++◌, arith,
}
use kubernetes_redis_operato.Go.Text.{Str, split, cut}

-- The character does not occur.
abbrev pub Avoids : ℕ → Str → Type 0
Avoids sep [] = Unit {0}
Avoids sep (c ∷ s) = (c ≢ sep) × Avoids sep s

differs : (c sep : ℕ) → c ≢ sep → (c == sep) ≡ false
differs c sep h = ground arith

itself : (sep : ℕ) → (sep == sep) ≡ true
itself sep = ground arith

pub split_end : (sep : ℕ) (s : Str) → Avoids sep s → split sep s ≡ s ∷ []
unfolding split
split_end sep [] h = refl
split_end sep (c ∷ s) h = rw (differs c sep h.0, split_end sep s h.1)

pub split_piece :
    (sep : ℕ) (s rest : Str) → Avoids sep s → split sep (s ++ sep ∷ rest) ≡ s ∷ split sep rest
unfolding split
split_piece sep [] rest h = rw itself
split_piece sep (c ∷ s) rest h = rw (differs c sep h.0, split_piece sep s rest h.1)

pub cut-none : (sep : ℕ) (s : Str) → Avoids sep s → cut sep s ≡ none
unfolding cut
cut-none sep [] h = refl
cut-none sep (c ∷ s) h = rw (differs c sep h.0, cut-none sep s h.1)

pub cut_piece : (sep : ℕ) (s rest : Str) → Avoids sep s → cut sep (s ++ sep ∷ rest) ≡ some (s, rest)
unfolding cut
cut_piece sep [] rest h = rw itself
cut_piece sep (c ∷ s) rest h = rw (differs c sep h.0, cut_piece sep s rest h.1)

pub Avoids-append : (sep : ℕ) (s t : Str) → Avoids sep s → Avoids sep t → Avoids sep (s ++ t)
Avoids-append sep [] t h k = k
Avoids-append sep (c ∷ s) t h k = (h.0, Avoids-append sep s t h.1 k)
