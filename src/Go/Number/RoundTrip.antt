-- ===== src/Go/Number/RoundTrip.antt =====
-- `strconv.Atoi` reads what `strconv.Itoa` writes.
use mathlib.Core.List.{append_assoc, append-nil}
use kubernetes_redis_operato.Prelude.{
  ℕ, zero, suc, ◌+◌, ◌*◌, ◌/◌, ◌%◌, ◌^◌, ◌<◌, ◌≡◌, refl, false, true, some, [], ◌∷◌, ◌++◌, arith,
  ltb, lt→ltb, Bool-cases, inl, inr, ltb→lt, ◌==◌, ap, ==_iff,
}
use kubernetes_redis_operato.Prelude.Int.{pos}
use kubernetes_redis_operato.Go.Text.{Str, is_space}
use kubernetes_redis_operato.Go.Text.Pieces.{Avoids}
use kubernetes_redis_operato.Go.Text.Words.{IsWord, Solid}
use kubernetes_redis_operato.Go.Number.{is_digit, digits, itoa, read_digits, atoi}

-- There are only digits in the text.
abbrev Digits : Str → Type 0
Digits [] = Unit {0}
Digits (c ∷ s) = (is_digit c ≡ true) × Digits s

Digits-append : (s t : Str) → Digits s → Digits t → Digits (s ++ t)
Digits-append [] t h k = k
Digits-append (c ∷ s) t h k = (h.0, Digits-append s t h.1 k)

digits-Digits : (f n : ℕ) → Digits (digits f n)
unfolding digits
digits-Digits zero n = tt
digits-Digits (suc f) n = elim (Bool-cases (ltb n 10)) [
  | inl small ↦ rw small (ground arith)
  | inr large ↦
      rw large (Digits-append (digits f (n / 10)) _ (digits-Digits f (n / 10)) (ground arith))
]

read_digit :
    (n d m : ℕ) (rest : Str)
    → d < 10
    → n * 10 + d ≡ m
    → read_digits n ((b'0' + d) ∷ rest) ≡ read_digits m rest
unfolding read_digits
read_digit n d m rest h e = rw (← e) (ground arith)

read_digits-digits :
    (f n : ℕ) (rest : Str) → n < f → read_digits 0 (digits f n ++ rest) ≡ read_digits n rest
unfolding digits
read_digits-digits zero n rest h = elim h [ ]
read_digits-digits (suc f) n rest h = elim (Bool-cases (ltb n 10)) [
  | inl small ↦ rw small (read_digit 0 n n rest (ltb→lt n 10 small) (omega arith))
  | inr large ↦
      rw
        (
          large,
          append_assoc (digits f (n / 10)) ((b'0' + n % 10) ∷ []) rest,
          read_digits-digits f (n / 10) ((b'0' + n % 10) ∷ rest) (ground arith),
        )
        (read_digit (n / 10) (n % 10) n rest (omega arith) (omega arith))
]

read_digits-itoa : (n : ℕ) → read_digits 0 (itoa n) ≡ some n
unfolding itoa read_digits
read_digits-itoa n =
    rw (← append-nil (digits (suc n) n)) (read_digits-digits (suc n) n [] (omega arith))

append_last : (s : Str) (d : ℕ) → (c : ℕ) × (t : Str) × (s ++ d ∷ [] ≡ c ∷ t)
append_last [] d = (d, [], refl)
append_last (c ∷ s) d = (c, s ++ d ∷ [], refl)

itoa_head : (n : ℕ) → (c : ℕ) × (s : Str) × (itoa n ≡ c ∷ s)
unfolding itoa digits
itoa_head n = elim (Bool-cases (ltb n 10)) [
  | inl small ↦ (b'0' + n, [], rw small refl)
  | inr large ↦ rw large (append_last (digits n (n / 10)) (b'0' + n % 10))
]

itoa-Digits : (n : ℕ) → Digits (itoa n)
unfolding itoa
itoa-Digits n = digits-Digits (suc n) n

Digits-Solid : (s : Str) → Digits s → Solid s
unfolding is_space
Digits-Solid [] h = tt
Digits-Solid (c ∷ s) h = (ground arith, Digits-Solid s h.1)

Digits-Avoids : (sep : ℕ) → is_digit sep ≡ false → (s : Str) → Digits s → Avoids sep s
Digits-Avoids sep k [] h = tt
Digits-Avoids sep k (c ∷ s) h = (λ (e : c ≡ sep). cc (ap is_digit e), Digits-Avoids sep k s h.1)

IsWord-of-Digits : (s : Str) → (c : ℕ) × (t : Str) × (s ≡ c ∷ t) → Digits s → IsWord s
IsWord-of-Digits [] (c, t, e) h = cc
IsWord-of-Digits (d ∷ s) _ h = Digits-Solid (d ∷ s) h

pub itoa-IsWord : (n : ℕ) → IsWord (itoa n)
itoa-IsWord n = IsWord-of-Digits (itoa n) (itoa_head n) (itoa-Digits n)

-- A decimal has no other character than digits.
pub itoa-Avoids : (sep : ℕ) → is_digit sep ≡ false → (n : ℕ) → Avoids sep (itoa n)
itoa-Avoids sep k n = Digits-Avoids sep k (itoa n) (itoa-Digits n)

unsigned : (c sign : ℕ) → is_digit c ≡ true → is_digit sign ≡ false → (c == sign) ≡ false
unsigned c sign h k = elim (Bool-cases (c == sign)) [
  | inl e ↦ cc (ap is_digit ((==_iff c sign).0 e))
  | inr e ↦ e
]

atoi-Digits :
    (s : Str) (n : ℕ)
    → (c : ℕ) × (t : Str) × (s ≡ c ∷ t)
    → Digits s
    → read_digits 0 s ≡ some n
    → n < 2 ^ 63
    → atoi s ≡ some (pos n)
unfolding atoi
atoi-Digits [] n (c, t, e) h r k = cc
atoi-Digits (c ∷ s) n _ h r k =
    rw (unsigned c b'-' h.0 refl, unsigned c b'+' h.0 refl, r, lt→ltb n (2 ^ 63) k) refl

pub atoi-itoa : (n : ℕ) → n < 2 ^ 63 → atoi (itoa n) ≡ some (pos n)
atoi-itoa n h = atoi-Digits (itoa n) n (itoa_head n) (itoa-Digits n) (read_digits-itoa n) h
