-- ===== src/Controller/Conditions/Told.antt =====
-- How the condition Ready and the phase of a status go together.
use kubernetes_redis_operato.Prelude.{
  ◌≡◌, ◌≢◌, refl, sym, ap, ◌∙◌, Bool, true, false, Option, none, some, List, [], ◌∷◌, if◌then◌else◌,
}
use kubernetes_redis_operato.Prelude.Int.{ℤ, pos, ltb_ℤ}
use kubernetes_redis_operato.Go.Text.{Str, str_eq}
use kubernetes_redis_operato.Api.Types.{Phase}
use kubernetes_redis_operato.Api.Objects.{RedisSentinel}
use kubernetes_redis_operato.Controller.Standalone.{phase_of_readiness}
use kubernetes_redis_operato.Controller.Sentinel.{all_sentinels_ready}
use kubernetes_redis_operato.Controller.Conditions.{
  started_phase, Condition, condition_ready, reason_ready, reason_for, redis_condition,
  sentinel_condition, failed_condition, Write, started, updated, failed, Status, write_redis,
  write_sentinel, write_all,
}

-- The condition of a type, if there is one.
unfoldable pub told : Str → List Condition → Option Condition
unfolding str_eq
told kind [] = none
told kind (c ∷ cs) = if str_eq c.kind kind then some c else told kind cs

-- What is documented of `SetStatusCondition`: afterwards the condition of the type of the new one is
-- the new one, its time of transition excepted, and the others are as before.
pub record SetsCondition (set : List Condition → Condition → List Condition) : Type 0 where
  pub found :
      (cs : List Condition) (c : Condition)
      → (c' : Condition) × (told c.kind (set cs c) ≡ some c')
        × (c'.holds ≡ c.holds)
        × (c'.reason ≡ c.reason)
        × (c'.observed_generation ≡ c.observed_generation)
        × (c'.message ≡ c.message)
  pub others :
      (cs : List Condition) (c : Condition) (kind : Str)
      → c.kind ≢ kind
      → told kind (set cs c) ≡ told kind cs

-- The condition Ready holds exactly in the phase Ready, and then for the reason "Ready".
abbrev pub Agrees : Status → Type 0
Agrees (phase, cs) =
    (phase ≡ Phase.ready
      → (c : Condition) × (told condition_ready cs ≡ some c)
        × (c.holds ≡ true)
        × (c.reason ≡ reason_ready))
    × ((c : Condition) → told condition_ready cs ≡ some c → c.holds ≡ true → phase ≡ Phase.ready)

not_ready : (phase : Phase) → phase_of_readiness false phase ≢ Phase.ready
not_ready Phase.unset h = cc
not_ready Phase.initializing h = cc
not_ready Phase.ready h = cc
not_ready Phase.failed h = cc
not_ready Phase.scaling h = cc
not_ready Phase.recovering h = cc

module _ (set : List Condition → Condition → List Condition) (sets : SetsCondition set) where
  -- A condition of the type Ready that does not hold, in another phase.
  denied :
      (phase : Phase) (cs : List Condition) (c : Condition)
      → c.kind ≡ condition_ready
      → c.holds ≡ false
      → phase ≢ Phase.ready
      → Agrees (phase, set cs c)
  denied phase cs c kind denies other =
      let (c', found, holds, _, _, _) = sets.found cs c in
      (
        λ h. elim (other h) [ ],
        λ d told_d holds_d.
            let same : some c' ≡ some d = sym found ∙ ap (λ t. told t (set cs c)) kind ∙ told_d in
            let equal : c' ≡ d = cc in cc,
      )

  granted :
      (cs : List Condition) (c : Condition)
      → c.kind ≡ condition_ready
      → c.holds ≡ true
      → c.reason ≡ reason_ready
      → Agrees (Phase.ready, set cs c)
  granted cs c kind grants reason =
      let (c', found, holds, why, _, _) = sets.found cs c in
      (
        λ h. (c', ap (λ t. told t (set cs c)) (sym kind) ∙ found, holds ∙ grants, why ∙ reason),
        λ d told_d h. refl,
      )

  judged :
      (ready : Bool) (phase : Phase) (cs : List Condition) (c : Condition)
      → c.kind ≡ condition_ready
      → c.holds ≡ ready
      → c.reason ≡ reason_for ready
      → Agrees (phase_of_readiness ready phase, set cs c)
  judged true phase cs c kind holds reason = granted cs c kind holds reason
  judged false phase cs c kind holds reason =
      denied (phase_of_readiness false phase) cs c kind holds (not_ready phase)

  started_phase-Agrees :
      (phase : Phase) (cs : List Condition) → Agrees (phase, cs) → Agrees (started_phase phase, cs)
  started_phase-Agrees Phase.unset cs (h, k) =
      (λ p. cc, λ c found holds. (let p : Phase.unset ≡ Phase.ready = k c found holds in cc))
  started_phase-Agrees Phase.initializing cs h = h
  started_phase-Agrees Phase.ready cs h = h
  started_phase-Agrees Phase.failed cs h = h
  started_phase-Agrees Phase.scaling cs h = h
  started_phase-Agrees Phase.recovering cs h = h

  write_redis-Agrees : (s : Status) (w : Write ℤ) → Agrees s → Agrees (write_redis set s w)
  unfolding write_redis redis_condition failed_condition
  write_redis-Agrees (phase, cs) started h = started_phase-Agrees phase cs h
  write_redis-Agrees (phase, cs) (updated g now n) h =
      judged (ltb_ℤ (pos 0) n) phase cs (redis_condition g now n) refl refl refl
  write_redis-Agrees (phase, cs) (failed g now reason message) h =
      denied Phase.failed cs (failed_condition g now reason message) refl refl (λ p. cc)

  write_sentinel-Agrees :
      (s : Status) (w : Write (RedisSentinel × ℤ × ℤ)) → Agrees s → Agrees (write_sentinel set s w)
  unfolding write_sentinel sentinel_condition failed_condition
  write_sentinel-Agrees (phase, cs) started h = started_phase-Agrees phase cs h
  write_sentinel-Agrees (phase, cs) (updated g now (rs, replicas, sentinels)) h =
      judged (all_sentinels_ready rs replicas sentinels) phase cs
        (sentinel_condition rs g now replicas sentinels) refl refl refl
  write_sentinel-Agrees (phase, cs) (failed g now reason message) h =
      denied Phase.failed cs (failed_condition g now reason message) refl refl (λ p. cc)

  -- A write leaves the condition of a type.
  abbrev Leaves : {R : Type 0} → Str → (Status → Write R → Status) → Type 0
  Leaves {R} kind write = (s : Status) (w : Write R) → told kind (write s w).1 ≡ told kind s.1

  write_redis-Leaves : (kind : Str) → condition_ready ≢ kind → Leaves kind (write_redis set)
  unfolding write_redis redis_condition failed_condition
  write_redis-Leaves kind other (phase, cs) started = refl
  write_redis-Leaves kind other (phase, cs) (updated g now n) =
      sets.others cs (redis_condition g now n) kind other
  write_redis-Leaves kind other (phase, cs) (failed g now reason message) =
      sets.others cs (failed_condition g now reason message) kind other

  write_sentinel-Leaves : (kind : Str) → condition_ready ≢ kind → Leaves kind (write_sentinel set)
  unfolding write_sentinel sentinel_condition failed_condition
  write_sentinel-Leaves kind other (phase, cs) started = refl
  write_sentinel-Leaves kind other (phase, cs) (updated g now (rs, replicas, sentinels)) =
      sets.others cs (sentinel_condition rs g now replicas sentinels) kind other
  write_sentinel-Leaves kind other (phase, cs) (failed g now reason message) =
      sets.others cs (failed_condition g now reason message) kind other

write_all-keeps :
    {R : Type 0} (P : Status → Type 0) (write : Status → Write R → Status)
    → ((s : Status) (w : Write R) → P s → P (write s w))
    → (s : Status) (ws : List (Write R)) → P s
    → P (write_all write s ws)
write_all-keeps P write step s [] h = h
write_all-keeps P write step s (w ∷ ws) h = write_all-keeps P write step (write s w) ws (step s w h)

-- From a status without a phase and without a condition Ready, whatever the controllers of Redis and
-- of RedisSentinel write to it over time: the phase is Ready exactly if the condition Ready holds,
-- whose reason is then "Ready", and conditions of other types stay as they were.
pub write_all-Agrees :
    (set : List Condition → Condition → List Condition) (cs : List Condition)
    (of_redis : List (Write ℤ)) (of_sentinel : List (Write (RedisSentinel × ℤ × ℤ))) (kind : Str)
    → SetsCondition set
    → told condition_ready cs ≡ none
    → condition_ready ≢ kind
    → Agrees (write_all (write_redis set) (Phase.unset, cs) of_redis)
      × Agrees (write_all (write_sentinel set) (Phase.unset, cs) of_sentinel)
      × (told kind (write_all (write_redis set) (Phase.unset, cs) of_redis).1 ≡ told kind cs)
      × (told kind (write_all (write_sentinel set) (Phase.unset, cs) of_sentinel).1 ≡ told kind cs)
write_all-Agrees set cs of_redis of_sentinel kind sets absent other =
    let s : Status = (Phase.unset, cs) in
    let fresh : Agrees s = ((λ p. cc), (λ c found holds. cc)) in
    let same = λ (t : Status). told kind t.1 ≡ told kind cs in
    (
      write_all-keeps Agrees (write_redis set) (write_redis-Agrees set sets) s of_redis fresh,
      write_all-keeps Agrees (write_sentinel set) (write_sentinel-Agrees set sets) s of_sentinel
          fresh,
      write_all-keeps same (write_redis set)
          (λ t w h. write_redis-Leaves set sets kind other t w ∙ h) s of_redis refl,
      write_all-keeps same (write_sentinel set)
          (λ t w h. write_sentinel-Leaves set sets kind other t w ∙ h) s of_sentinel refl,
    )
