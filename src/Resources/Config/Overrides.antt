-- ===== src/Resources/Config/Overrides.antt =====
-- The user's settings win over the operator's.
use kubernetes_redis_operato.Prelude.{
  ◌≡◌, refl, Bool-cases, inl, inr, Option, none, some, [], ◌∷◌, if◌then◌else◌,
}
use kubernetes_redis_operato.Go.Text.{Str, str_eq, contains}
use kubernetes_redis_operato.Go.Map.{Map, lookup}
use kubernetes_redis_operato.Resources.Config.{keys, Visit, override, value_of}
use kubernetes_redis_operato.Resources.Config.Determined.{IsVisit, contains-perm, lookup-set_all}

-- The setting of the user where there is one, and the default otherwise.
abbrev pub first_of : Option Str → Option Str → Option Str
first_of none d = d
first_of (some v) d = some v

contains-keys :
    (j : Str) (user : Map Str) (d : Option Str)
    → (if contains (keys user) j then some (value_of j user) else d) ≡ first_of (lookup j user) d
unfolding contains lookup
contains-keys j [] d = refl
contains-keys j ((k, v) ∷ user) d = elim (Bool-cases (str_eq k j)) [
  | inl e ↦ rw e
  | inr e ↦ rw e (contains-keys j user d)
]

-- In the merged configuration every key has the user's value, or the operator's default where the user
-- gives none, in whatever order the user's keys are visited.
pub lookup-override :
    (visit : Visit) (user m : Map Str) (j : Str)
    → IsVisit visit
    → lookup j (override visit user m) ≡ first_of (lookup j user) (lookup j m)
unfolding override
lookup-override visit user m j h =
    rw (lookup-set_all (visit user) user m j, contains-perm j (h user))
      (contains-keys j user (lookup j m))
