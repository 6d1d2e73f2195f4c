-- ===== src/Go/Map.antt =====
-- `map[string]V` as an association list in which no key stands twice, in the order of insertion.
-- The order in which a `range` loop visits a map is not this one: see Redis/Client.antt.
use kubernetes_redis_operato.Prelude.{
  ◌≡◌, refl, Option, none, some, List, [], ◌∷◌, arith, if◌then◌else◌,
}
use kubernetes_redis_operato.Go.Text.{Str, str_eq, str_eq_iff}

abbrev pub Map {ℓ} : Type ℓ → Type ℓ
Map V = List (Str × V)

module _ {ℓ} {V : Type ℓ} where
  -- `v, ok := m[k]`
  unfoldable pub lookup : Str → Map V → Option V
  unfolding str_eq
  lookup k [] = none
  lookup k ((j, v) ∷ m) = if str_eq j k then some v else lookup k m

  -- `m[k] = v`
  unfoldable pub insert : Str → V → Map V → Map V
  unfolding str_eq
  insert k v [] = (k, v) ∷ []
  insert k v ((j, w) ∷ m) = if str_eq j k then (k, v) ∷ m else (j, w) ∷ insert k v m

  -- `m[k]`, which is the zero value for a missing key
  abbrev pub or_zero : V → Option V → V
  or_zero zero_value none = zero_value
  or_zero zero_value (some v) = v

  pub lookup-insert :
      (j k : Str) (v : V) (m : Map V)
      → lookup j (insert k v m) ≡ (if str_eq k j then some v else lookup j m)
  unfolding lookup insert
  lookup-insert j k v [] = refl
  lookup-insert j k v ((i, w) ∷ m) =
      ground (arith, str_eq_iff k j, str_eq_iff i k, str_eq_iff i j, lookup-insert j k v m)
