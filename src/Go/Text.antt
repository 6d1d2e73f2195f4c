-- ===== src/Go/Text.antt =====
-- Go strings, as the lists of their code points, with the functions of package strings that the
-- operator calls. (Texts that are not valid UTF-8 are outside the model.)
pub mod Pieces
pub mod Words
use Prim.Native.Char.{code}
use Prim.Native.String.{String}
use kubernetes_redis_operato.Prelude.{
  ℕ, ◌≡◌, refl, ◌↔◌, Bool, true, false, ◌&&◌, ◌||◌, Option, none, some, List, [], ◌∷◌, arith, ◌==◌,
  leb, if◌then◌else◌,
}

abbrev pub Str : Type 0
Str = List ℕ

-- The code points of a literal.
abbrev pub codes : String → Str
codes String.[] = []
codes (String.◌∷◌ c s) = code c ∷ codes s

-- `s == t`
unfoldable pub str_eq : Str → Str → Bool
str_eq [] [] = true
str_eq [] (_ ∷ _) = false
str_eq (_ ∷ _) [] = false
str_eq (a ∷ s) (b ∷ t) = a == b && str_eq s t

pub str_eq_iff : (s t : Str) → (str_eq s t ≡ true) ↔ (s ≡ t)
unfolding str_eq
str_eq_iff [] [] = (λ _. refl, λ _. refl)
str_eq_iff [] (b ∷ t) = (λ h. cc, λ h. cc)
str_eq_iff (a ∷ s) [] = (λ h. cc, λ h. cc)
str_eq_iff (a ∷ s) (b ∷ t) = ground (arith, str_eq_iff s t)

-- `unicode.IsSpace`
unfoldable pub is_space : ℕ → Bool
is_space c =
    (leb 9 c && leb c 13)
    || c == 0x20
    || c == 0x85
    || c == 0xa0
    || c == 0x1680
    || (leb 0x2000 c && leb c 0x200a)
    || c == 0x2028
    || c == 0x2029
    || c == 0x202f
    || c == 0x205f
    || c == 0x3000

unfoldable pub trim_left : Str → Str
trim_left [] = []
trim_left (c ∷ s) = let rest = trim_left s in if is_space c then rest else c ∷ s

abbrev keep_unless_blank : ℕ → Str → Str
keep_unless_blank c [] = if is_space c then [] else c ∷ []
keep_unless_blank c (d ∷ s) = c ∷ d ∷ s

unfoldable pub trim_right : Str → Str
trim_right [] = []
trim_right (c ∷ s) = keep_unless_blank c (trim_right s)

-- `strings.TrimSpace`
unfoldable pub trim_space : Str → Str
unfolding trim_left trim_right is_space
trim_space s = trim_right (trim_left s)

abbrev push : ℕ → List Str → List Str
push c [] = (c ∷ []) ∷ []
push c (p ∷ ps) = (c ∷ p) ∷ ps

-- `strings.Split(s, sep)` for a separator of one character.
unfoldable pub split : ℕ → Str → List Str
split sep [] = [] ∷ []
split sep (c ∷ s) = if c == sep then [] ∷ split sep s else push c (split sep s)

-- The texts before and after the first `sep`, as by `strings.Index` or `strings.SplitN(s, sep, 2)`.
unfoldable pub cut : ℕ → Str → Option (Str × Str)
cut sep [] = none
cut sep (c ∷ s) =
    let rest = cut sep s in
    if c == sep then some ([], s) else elim rest [ none ↦ none | some (a, b) ↦ some (c ∷ a, b) ]

-- The texts before and after the last `sep`, as by `strings.LastIndex`.
unfoldable pub cut_last : ℕ → Str → Option (Str × Str)
cut_last sep [] = none
cut_last sep (c ∷ s) = elim (cut_last sep s) [
  | none ↦ if c == sep then some ([], s) else none
  | some (a, b) ↦ some (c ∷ a, b)
]

abbrev pub close : Str × List Str → List Str
close ([], ws) = ws
close (c ∷ w, ws) = (c ∷ w) ∷ ws

-- The word that the text begins with, which may be empty, and the words behind it.
unfoldable pub words : Str → Str × List Str
words [] = ([], [])
words (c ∷ s) = let (w, ws) = words s in if is_space c then ([], close (w, ws)) else (c ∷ w, ws)

-- `strings.Fields`
unfoldable pub fields : Str → List Str
unfolding words is_space
fields s = close (words s)

-- `strings.HasPrefix(s, p)` for a prefix of one character.
abbrev pub has_prefix : Str → ℕ → Bool
has_prefix [] p = false
has_prefix (c ∷ s) p = c == p

-- `strings.Contains` of one element in a list, as by a loop that returns at the first hit.
unfoldable pub contains : List Str → Str → Bool
unfolding str_eq
contains [] s = false
contains (t ∷ ts) s = str_eq t s || contains ts s
