-- ===== src/Api/Storage/Kept.antt =====
-- What an accepted update keeps of the storage.
use kubernetes_redis_operato.Prelude.{
  ◌≡◌, refl, inl, inr, Bool, true, false, Option, none, some, arith, Bool-cases,
}
use kubernetes_redis_operato.Prelude.Int.{ℤ, ◌≤ℤ◌, ltb_ℤ}
use kubernetes_redis_operato.Go.Text.{str_eq, str_eq_iff}
use kubernetes_redis_operato.Api.Types.{StorageSpec}
use kubernetes_redis_operato.Api.Storage.{
  Invalid, Check, Quantity, ◌orelse◌, reject_if, class_of, check_storage_update,
}

-- An accepted chain of checks: each of them was accepted.
pub orelse-eq-none : (a b : Check) → a orelse b ≡ none → (a ≡ none) × (b ≡ none)
orelse-eq-none none b h = (refl, h)
orelse-eq-none (some e) b h = cc

pub reject_if-eq-none : (b : Bool) (e : _) → reject_if b e ≡ none → b ≡ false
reject_if-eq-none true e h = cc
reject_if-eq-none false e h = refl

-- Storage is there before and after or at no time; its class stays, and its size does not decrease
-- where both sizes are quantities.
abbrev pub KeepsStorage : Quantity → Option StorageSpec → Option StorageSpec → Type 0
KeepsStorage q none none = Unit {0}
KeepsStorage q (some old) (some new) =
    (class_of old ≡ class_of new) × ((a b : ℤ) → q old.size ≡ some a → q new.size ≡ some b → a ≤ℤ b)
KeepsStorage q _ _ = ⊥

-- An accepted update neither adds nor removes storage, keeps its class, and does not make it smaller
-- where both sizes are quantities.
pub check_storage_update-KeepsStorage :
    (q : Quantity) (old new : Option StorageSpec)
    → check_storage_update q old new ≡ none
    → KeepsStorage q old new
unfolding check_storage_update
check_storage_update-KeepsStorage q none none h = tt
check_storage_update-KeepsStorage q none (some new) h = cc
check_storage_update-KeepsStorage q (some old) none h = cc
check_storage_update-KeepsStorage q (some old) (some new) h =
    elim (Bool-cases (str_eq (class_of old) (class_of new))) [
      | inr differ ↦ cc (rw differ at h)
      | inl same ↦ (
        (str_eq_iff (class_of old) (class_of new)).0 same,
        λ a b p p'. not_shrunk a b (shrinks-eq_of same h p p'),
      )
    ]
  where
    not_shrunk : (a b : ℤ) → ltb_ℤ b a ≡ false → a ≤ℤ b
    not_shrunk a b h = ground arith

    shrinks-eq_of :
        {a b : ℤ}
        → str_eq (class_of old) (class_of new) ≡ true
        → check_storage_update q (some old) (some new) ≡ none
        → q old.size ≡ some a
        → q new.size ≡ some b
        → ltb_ℤ b a ≡ false
    shrinks-eq_of same h p p' = reject_if-eq-none _ Invalid.size_decreased (rw (same, p, p') at h)
