-- ===== src/Go/Sort.antt =====
-- `sort.Strings`: the texts in ascending order. Code points are in the order of their UTF-8 bytes.
pub mod Order
use kubernetes_redis_operato.Prelude.{
  ℕ, Bool, true, false, ◌&&◌, ◌||◌, ◌==◌, ltb, List, [], ◌∷◌, if◌then◌else◌,
}
use kubernetes_redis_operato.Go.Text.{Str}

-- `s <= t`
unfoldable pub str_le : Str → Str → Bool
str_le [] t = true
str_le (a ∷ s) [] = false
str_le (a ∷ s) (b ∷ t) = ltb a b || (a == b && str_le s t)

unfoldable pub insert_sorted : Str → List Str → List Str
unfolding str_le
insert_sorted x [] = x ∷ []
insert_sorted x (y ∷ ys) =
    let rest = insert_sorted x ys in if str_le x y then x ∷ y ∷ ys else y ∷ rest

unfoldable pub sort_strings : List Str → List Str
unfolding insert_sorted
sort_strings [] = []
sort_strings (x ∷ xs) = insert_sorted x (sort_strings xs)
