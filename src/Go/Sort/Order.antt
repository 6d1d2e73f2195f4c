-- ===== src/Go/Sort/Order.antt =====
-- Sorting is sorting, and forgets the order of its input.
use mathlib.Core.List.{Perm, Permᴰ}
use mathlib.Core.Logic.{∥∥₁_elim}
use kubernetes_redis_operato.Prelude.{◌≡◌, refl, ◌∙◌, true, false, List, [], ◌∷◌, arith}
use kubernetes_redis_operato.Go.Text.{Str}
use kubernetes_redis_operato.Go.Sort.{str_le, insert_sorted, sort_strings}

pub str_le_total : (s t : Str) → str_le s t ≡ false → str_le t s ≡ true
unfolding str_le
str_le_total [] t h = cc
str_le_total (a ∷ s) [] h = refl
str_le_total (a ∷ s) (b ∷ t) h = ground (arith, str_le_total s t)

str_le_antisymm : (s t : Str) → str_le s t ≡ true → str_le t s ≡ true → s ≡ t
unfolding str_le
str_le_antisymm [] [] h k = refl
str_le_antisymm [] (b ∷ t) h k = cc
str_le_antisymm (a ∷ s) [] h k = cc
str_le_antisymm (a ∷ s) (b ∷ t) h k = ground (arith, str_le_antisymm s t)

pub str_le_trans : (s t u : Str) → str_le s t ≡ true → str_le t u ≡ true → str_le s u ≡ true
unfolding str_le
str_le_trans [] t u h k = refl
str_le_trans (a ∷ s) [] u h k = cc
str_le_trans (a ∷ s) (b ∷ t) [] h k = cc
str_le_trans (a ∷ s) (b ∷ t) (c ∷ u) h k = ground (arith, str_le_trans s t u)

insert_sorted_comm :
    (x y : Str) (l : List Str)
    → insert_sorted x (insert_sorted y l) ≡ insert_sorted y (insert_sorted x l)
unfolding insert_sorted
insert_sorted_comm x y [] = ground (arith, str_le_total x y, str_le_antisymm x y)
insert_sorted_comm x y (z ∷ l) = ground (
  arith,
  str_le_total x y,
  str_le_total y x,
  str_le_antisymm x y,
  str_le_trans x y z,
  str_le_trans y x z,
  insert_sorted_comm x y l,
)

sort_strings-Permᴰ : {xs ys : List Str} → Permᴰ xs ys → sort_strings xs ≡ sort_strings ys
unfolding sort_strings
sort_strings-Permᴰ Permᴰ.nil = refl
sort_strings-Permᴰ (Permᴰ.cons e d) = rw (e, sort_strings-Permᴰ d)
sort_strings-Permᴰ (Permᴰ.swap {a} {b} {l = l} e f) =
    rw (e, f) (insert_sorted_comm _ _ (sort_strings l))
sort_strings-Permᴰ (Permᴰ.trans d d') = sort_strings-Permᴰ d ∙ sort_strings-Permᴰ d'

pub sort_strings-perm : {xs ys : List Str} → Perm xs ys → sort_strings xs ≡ sort_strings ys
sort_strings-perm p = ∥∥₁_elim p (hlevel) sort_strings-Permᴰ
