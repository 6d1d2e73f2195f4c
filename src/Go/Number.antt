-- ===== src/Go/Number.antt =====
-- Decimal numbers: `strconv.Itoa`, `strconv.Atoi`, and `fmt.Sscanf` with the verb `%d`.
pub mod RoundTrip
use kubernetes_redis_operato.Prelude.{
  ℕ, zero, suc, ◌+◌, ◌-◌, ◌*◌, ◌/◌, ◌%◌, ◌^◌, Bool, true, false, ◌&&◌, Option, none, some, [], ◌∷◌,
  ◌++◌, ◌==◌, leb, ltb, if◌then◌else◌,
}
use kubernetes_redis_operato.Prelude.Int.{ℤ, pos, negsuc}
use kubernetes_redis_operato.Go.Text.{Str, is_space}

abbrev pub is_digit : ℕ → Bool
is_digit c = leb b'0' c && leb c b'9'

-- Each round writes one digit, so more rounds than the number are never needed.
unfoldable pub digits : ℕ → ℕ → Str
digits zero n = []
digits (suc f) n =
    let before = digits f (n / 10) in
    if ltb n 10 then (b'0' + n) ∷ [] else before ++ ((b'0' + n % 10) ∷ [])

-- `strconv.Itoa` of a number that is not negative
unfoldable pub itoa : ℕ → Str
unfolding digits
itoa n = digits (suc n) n

unfoldable pub itoa_ℤ : ℤ → Str
unfolding itoa
itoa_ℤ (pos n) = itoa n
itoa_ℤ (negsuc n) = b'-' ∷ itoa (suc n)

-- The number that digits spell behind `n`; `none` at any other character.
unfoldable pub read_digits : ℕ → Str → Option ℕ
read_digits n [] = some n
read_digits n (c ∷ s) =
    let rest = read_digits (n * 10 + (c - b'0')) s in if is_digit c then rest else none

-- A magnitude as an int64, if it is in range.
abbrev in_range : Bool → ℕ → Option ℤ
in_range true zero = some (pos 0)
in_range true (suc n) = if ltb n (2 ^ 63) then some (negsuc n) else none
in_range false n = if ltb n (2 ^ 63) then some (pos n) else none

abbrev ranged : Bool → Option ℕ → Option ℤ
ranged neg none = none
ranged neg (some n) = in_range neg n

abbrev magnitude : Bool → Str → Option ℤ
magnitude neg [] = none
magnitude neg (c ∷ s) = ranged neg (read_digits 0 (c ∷ s))

-- `strconv.Atoi` and `strconv.ParseInt(s, 10, 64)`
unfoldable pub atoi : Str → Option ℤ
unfolding read_digits
atoi [] = none
atoi (c ∷ s) =
    if c == b'-'
    then magnitude true s
    else if c == b'+'
    then magnitude false s
    else magnitude false (c ∷ s)

-- The value that stands beside the error of `atoi`: the nearest int64 for a number out of range, and
-- otherwise 0.
abbrev clip : Bool → ℕ → ℤ
clip true n =
    if ltb (2 ^ 63) n then negsuc (2 ^ 63 - 1) else if ltb 0 n then negsuc (n - 1) else pos 0
clip false n = if ltb n (2 ^ 63) then pos n else pos (2 ^ 63 - 1)

abbrev clipped : Bool → Option ℕ → ℤ
clipped neg none = pos 0
clipped neg (some n) = clip neg n

abbrev clipped_digits : Bool → Str → ℤ
clipped_digits neg [] = pos 0
clipped_digits neg (c ∷ s) = clipped neg (read_digits 0 (c ∷ s))

unfoldable pub atoi_value : Str → ℤ
unfolding read_digits
atoi_value [] = pos 0
atoi_value (c ∷ s) =
    if c == b'-'
    then clipped_digits true s
    else if c == b'+'
    then clipped_digits false s
    else clipped_digits false (c ∷ s)

-- The longest prefix of digits.
unfoldable pub digit_prefix : Str → Str
digit_prefix [] = []
digit_prefix (c ∷ s) = let rest = digit_prefix s in if is_digit c then c ∷ rest else []

scan_sign : Str → Option ℤ
unfolding digit_prefix read_digits
scan_sign [] = none
scan_sign (c ∷ s) =
    if c == b'-'
    then magnitude true (digit_prefix s)
    else if c == b'+'
    then magnitude false (digit_prefix s)
    else magnitude false (digit_prefix (c ∷ s))

-- `fmt.Sscanf(s, "%d", &n)`: blanks are skipped, but not a newline; what follows the digits is
-- not read.
unfoldable pub sscanf_d : Str → Option ℤ
unfolding scan_sign is_space
sscanf_d [] = none
sscanf_d (c ∷ s) =
    let rest = sscanf_d s in
    if c == 10 then none else if is_space c then rest else scan_sign (c ∷ s)
