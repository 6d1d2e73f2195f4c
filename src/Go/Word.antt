-- ===== src/Go/Word.antt =====
-- Signed machine words: an integer is kept in range by wrapping around after each operation.
use kubernetes_redis_operato.Prelude.{ℕ, ◌-◌, ◌*◌, ◌%◌, ◌^◌, ◌≡◌, refl, arith, ltb, if◌then◌else◌}
use kubernetes_redis_operato.Prelude.Int.{ℤ, pos, negsuc, ◌≤ℤ◌}

-- The integer that a bit pattern of `2 * half` values stands for.
abbrev signed : ℕ → ℕ → ℤ
signed half w = if ltb w half then pos w else negsuc (2 * half - w - 1)

abbrev wrap : ℕ → ℤ → ℤ
wrap half (pos n) = signed half (n % (2 * half))
wrap half (negsuc n) = signed half (2 * half - 1 - n % (2 * half))

-- `int32` and `int`, which has 64 bits.
unfoldable pub int32 : ℤ → ℤ
int32 = wrap (2 ^ 31)

unfoldable pub int64 : ℤ → ℤ
int64 = wrap (2 ^ 63)

-- A number that fits is left alone.
pub int32_fits : (z : ℤ) → negsuc (2 ^ 31 - 1) ≤ℤ z → z ≤ℤ pos (2 ^ 31 - 1) → int32 z ≡ z
unfolding int32
int32_fits (pos n) lo hi = ground arith
int32_fits (negsuc n) lo hi = ground arith

pub int64_fits : (z : ℤ) → negsuc (2 ^ 63 - 1) ≤ℤ z → z ≤ℤ pos (2 ^ 63 - 1) → int64 z ≡ z
unfolding int64
int64_fits (pos n) lo hi = ground arith
int64_fits (negsuc n) lo hi = ground arith

wraps : int32 (pos 4294967295) ≡ negsuc 0
unfolding int32
wraps = refl
