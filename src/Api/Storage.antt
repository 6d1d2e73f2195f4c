-- ===== src/Api/Storage.antt =====
-- The checks on storage that the three validating webhooks share, and the results of validation.
-- `resource.ParseQuantity` and the comparison of quantities belong to Kubernetes: a parameter.
pub mod Kept
use kubernetes_redis_operato.Prelude.{[], Bool, true, false, Option, none, some, if◌then◌else◌}
use kubernetes_redis_operato.Prelude.Int.{ℤ, ltb_ℤ}
use kubernetes_redis_operato.Go.Text.{Str, str_eq}
use kubernetes_redis_operato.Api.Types.{StorageSpec}

-- One constructor for each error of the webhooks.
pub data Invalid : Type 0 where
  wrong_type : Invalid
  few_masters negative_replicas : ℤ → Invalid
  many_nodes : ℤ → Invalid
  few_replicas few_sentinels even_sentinels : ℤ → Invalid
  empty_size invalid_size : Invalid
  masters_below_three : Invalid
  replicas_below_three sentinels_below_three : ℤ → Invalid
  scale_down_by_many : ℤ → ℤ → Invalid
  update_while_scaling delete_while_scaling : Invalid
  storage_added storage_removed class_changed size_decreased : Invalid

-- A quantity as the number that comparisons go by, if the text is one.
abbrev pub Quantity : Type 0
Quantity = Str → Option ℤ

abbrev pub Check : Type 0
Check = Option Invalid

-- The first check that finds something wrong.
infixr 30 ◌orelse◌
abbrev pub ◌orelse◌ : Check → Check → Check
some e orelse k = some e
none orelse k = k

abbrev pub reject_if : Bool → Invalid → Check
reject_if true e = some e
reject_if false e = none

abbrev pub parses : Option ℤ → Check
parses none = some Invalid.invalid_size
parses (some _) = none

-- The part of the specification check that is about storage.
unfoldable pub check_size : Quantity → Option StorageSpec → Check
unfolding str_eq
check_size q none = none
check_size q (some s) = reject_if (str_eq s.size []) Invalid.empty_size orelse parses (q s.size)

-- `*s.ClassName`, or the empty string
abbrev class_text : Option Str → Str
class_text none = []
class_text (some name) = name

abbrev pub class_of : StorageSpec → Str
class_of s = class_text s.class_name

-- Sizes that do not parse are not compared.
abbrev pub shrinks : Option ℤ → Option ℤ → Bool
shrinks (some old) (some new) = ltb_ℤ new old
shrinks _ _ = false

-- Storage is neither added nor removed, its class stays and its size does not decrease.
unfoldable pub check_storage_update : Quantity → Option StorageSpec → Option StorageSpec → Check
unfolding str_eq
check_storage_update q none none = none
check_storage_update q none (some new) = some Invalid.storage_added
check_storage_update q (some old) none = some Invalid.storage_removed
check_storage_update q (some old) (some new) =
    reject_if (if str_eq (class_of old) (class_of new) then false else true) Invalid.class_changed
    orelse reject_if (shrinks (q old.size) (q new.size)) Invalid.size_decreased
