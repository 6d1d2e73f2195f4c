-- ===== src/Tests/Settled.antt =====
-- A cluster that stays in the phase Failed, and a store of conditions.
use kubernetes_redis_operato.Prelude.{
  Option, some, ◌≡◌, ◌≢◌, refl, sym, ◌∙◌, Bool, true, false, Bool-cases, List, [], ◌∷◌, inl, inr,
  if◌then◌else◌,
}
use kubernetes_redis_operato.Prelude.Int.{ℤ, pos}
use kubernetes_redis_operato.Go.Text.{Str, codes, str_eq, str_eq_iff}
use kubernetes_redis_operato.Api.Types.{Phase}
use kubernetes_redis_operato.Api.Objects.{Meta, RedisCluster, RedisSentinel}
use kubernetes_redis_operato.Controller.Failover.{last_config_hash_annotation}
use kubernetes_redis_operato.Controller.Conditions.{
  Condition, Write, write_redis, write_sentinel, write_all,
}
use kubernetes_redis_operato.Controller.Conditions.Told.{
  told, SetsCondition, Agrees, write_all-Agrees,
}
use kubernetes_redis_operato.Tests.Outer.{cache}
use kubernetes_redis_operato.Tests.Objects.{watched}

abbrev broken : RedisCluster
broken = record (cache 2) { phase = Phase.failed }

abbrev recorded_meta : Meta
recorded_meta = record {
  deleting = false;
  finalizer = true;
  annotations = (last_config_hash_annotation, codes "hash") ∷ [];
}

-- The new condition in the place of the old one, with its time if the status is the same.
abbrev renewed : Bool → Bool → Condition → Condition → Condition
renewed true true old new = record new { last_transition_time = old.last_transition_time }
renewed false false old new = record new { last_transition_time = old.last_transition_time }
renewed _ _ old new = new

unfoldable store : List Condition → Condition → List Condition
unfolding str_eq
store [] c = c ∷ []
store (d ∷ cs) c = if str_eq d.kind c.kind then renewed d.holds c.holds d c ∷ cs else d ∷ store cs c

renewed_lem :
    (a b : Bool) (old new : Condition)
    → ((renewed a b old new).kind ≡ new.kind)
      × ((renewed a b old new).holds ≡ new.holds)
      × ((renewed a b old new).reason ≡ new.reason)
      × ((renewed a b old new).observed_generation ≡ new.observed_generation)
      × ((renewed a b old new).message ≡ new.message)
renewed_lem true true old new = (refl, refl, refl, refl, refl)
renewed_lem false false old new = (refl, refl, refl, refl, refl)
renewed_lem true false old new = (refl, refl, refl, refl, refl)
renewed_lem false true old new = (refl, refl, refl, refl, refl)

same_kind : (s t : Str) → s ≡ t → str_eq s t ≡ true
same_kind s t h = (str_eq_iff s t).1 h

other_kind : (s t : Str) → s ≢ t → str_eq s t ≡ false
other_kind s t h = elim (Bool-cases (str_eq s t)) [
  | inl e ↦ elim (h ((str_eq_iff s t).0 e)) [ ]
  | inr e ↦ e
]

store-found :
    (cs : List Condition) (c : Condition)
    → (c' : Condition) × (told c.kind (store cs c) ≡ some c')
      × (c'.holds ≡ c.holds)
      × (c'.reason ≡ c.reason)
      × (c'.observed_generation ≡ c.observed_generation)
      × (c'.message ≡ c.message)
unfolding store told
store-found [] c = (c, rw (same_kind c.kind c.kind refl) refl, refl, refl, refl, refl)
store-found (d ∷ cs) c = elim (Bool-cases (str_eq d.kind c.kind)) [
  | inl e ↦
      let n = renewed d.holds c.holds d c in
      let (k, holds, reason, generation, message) = renewed_lem d.holds c.holds d c in
      (n, rw (e, same_kind n.kind c.kind k) refl, holds, reason, generation, message)
  | inr e ↦
      let (c', q, holds, reason, generation, message) = store-found cs c in
      (c', rw (e, e) q, holds, reason, generation, message)
]

by_kind :
    {x y : Option Condition} (b : Bool) (d : Condition)
    → x ≡ y
    → (if b then some d else x) ≡ (if b then some d else y)
by_kind true d h = refl
by_kind false d h = h

store-others :
    (cs : List Condition) (c : Condition) (kind : Str)
    → c.kind ≢ kind
    → told kind (store cs c) ≡ told kind cs
unfolding store told
store-others [] c kind h = rw (other_kind c.kind kind h) refl
store-others (d ∷ cs) c kind h = elim (Bool-cases (str_eq d.kind c.kind)) [
  | inl e ↦
      let k = (renewed_lem d.holds c.holds d c).0 in
      let same : d.kind ≡ c.kind = (str_eq_iff d.kind c.kind).0 e in
      rw
        (
          e,
          other_kind (renewed d.holds c.holds d c).kind kind (λ q. h (sym k ∙ q)),
          other_kind d.kind kind (λ q. h (sym same ∙ q)),
        )
        refl
  | inr e ↦ rw e (by_kind (str_eq d.kind kind) d (store-others cs c kind h))
]

store-SetsCondition : SetsCondition store
store-SetsCondition = record { found = store-found; others = store-others }

abbrev of_redis : List (Write ℤ)
of_redis =
    Write.started
    ∷ Write.updated (pos 1) 10 (pos 0)
    ∷ Write.updated (pos 1) 20 (pos 1)
    ∷ Write.failed (pos 2) 30 (codes "ConfigMapFailed") []
    ∷ Write.updated (pos 2) 40 (pos 1)
    ∷ []

abbrev of_sentinel : List (Write (RedisSentinel × ℤ × ℤ))
of_sentinel =
    Write.started
    ∷ Write.updated (pos 1) 10 (watched, pos 3, pos 2)
    ∷ Write.updated (pos 1) 20 (watched, pos 3, pos 3)
    ∷ []

write_all-Agrees_example :
    Agrees (write_all (write_redis store) (Phase.unset, []) of_redis)
    × Agrees (write_all (write_sentinel store) (Phase.unset, []) of_sentinel)
    × (told (codes "Degraded") (write_all (write_redis store) (Phase.unset, []) of_redis).1
        ≡ told (codes "Degraded") [])
    × (told (codes "Degraded") (write_all (write_sentinel store) (Phase.unset, []) of_sentinel).1
        ≡ told (codes "Degraded") [])
unfolding told
write_all-Agrees_example =
    write_all-Agrees store [] of_redis of_sentinel (codes "Degraded") store-SetsCondition refl
      (λ q. cc)

redis_gets_ready : (write_all (write_redis store) (Phase.unset, []) of_redis).0 ≡ Phase.ready
unfolding write_redis
redis_gets_ready = refl
