-- ===== src/Controller/Reconcile/History.antt =====
-- The phases that a status holds over the life of a custom resource.
use mathlib.Core.List.{append_cancel_right}
use kubernetes_redis_operato.Prelude.{
  Option, ◌≢◌, ◌⊎◌, inl, inr, ◌≡◌, refl, sym, ◌∙◌, List, [], ◌∷◌, ◌++◌,
}
use kubernetes_redis_operato.Go.Text.{Str}
use kubernetes_redis_operato.Api.Types.{Phase}
use kubernetes_redis_operato.Api.Objects.{Meta, RedisInstance, RedisSentinel}
use kubernetes_redis_operato.Redis.Effect.{Command, Log, M, emit}
use kubernetes_redis_operato.Redis.Client.{RedisClient, Runtime}
use kubernetes_redis_operato.Redis.Loops.{All, IssuesAt}
use kubernetes_redis_operato.Controller.Kube.{Kube}
use kubernetes_redis_operato.Controller.Reconcile.Phases.{Writes, IsMove}
use kubernetes_redis_operato.Controller.Standalone.{reconcile_live_redis}
use kubernetes_redis_operato.Controller.Standalone.Steps.{Keeps-reconcile_live_redis}
use kubernetes_redis_operato.Controller.Sentinel.{reconcile_live_sentinel}
use kubernetes_redis_operato.Controller.Sentinel.Steps.{Keeps-reconcile_live_sentinel}

emit-onto : (es a l : List Command) → emit es (a ++ l) ≡ emit es a ++ l
emit-onto [] a l = refl
emit-onto (e ∷ es) a l = emit-onto es (e ∷ a) l

module _ (P : Command → Type 0) where
  All-emit : (es a : List Command) → All P es → All P a → All P (emit es a)
  All-emit [] a h g = g
  All-emit (e ∷ es) a h g = All-emit es (e ∷ a) h.1 (h.0, g)

  All-middle : (xs ys : List Command) (e : Command) → All P (xs ++ e ∷ ys) → P e
  All-middle [] ys e h = h.0
  All-middle (x ∷ xs) ys e h = All-middle xs ys e h.1

  issued-newest :
      {A : Type 0} (m : M A) (l new : Log) → IssuesAt P m l → (m l).1 ≡ new ++ l → All P new
  issued-newest m l new (es, q, h) e =
      let same = append_cancel_right new (emit es []) l (sym e ∙ q ∙ emit-onto es [] l) in
      rw same (All-emit es [] h tt)

-- The computation, run on the log `l`, issues the command.
pub record Issued {A : Type 0} (m : M A) (l : Log) (e : Command) : Type 0 where
  pub later : Log
  pub earlier : Log
  pub is_log : (m l).1 ≡ (later ++ e ∷ earlier) ++ l

pub Issued-holds :
    {A : Type 0} (P : Command → Type 0) (m : M A) (l : Log) (e : Command)
    → Issued m l e
    → IssuesAt P m l
    → P e
Issued-holds P m l e i h = All-middle P i.later i.earlier e (issued-newest P m l _ h i.is_log)

module _ (k : Kube) (rt : Runtime) (client : Option RedisClient) (sha256_hex : Str → Str) where
  -- The phases that reconciliations write, one after the other, from the first phase on: each run reads
  -- the phase that the one before wrote. Everything else of the object may change in between.
  pub data SentinelRuns : Phase → List Phase → Type 0 where
    done : {p : Phase} → SentinelRuns p []
    run :
        {q : Phase} {qs : List Phase} (m : Meta) (rs : RedisSentinel) (l : Log)
        → Issued (reconcile_live_sentinel k rt client sha256_hex m rs) l (Command.update_status q)
        → SentinelRuns q qs
        → SentinelRuns rs.phase (q ∷ qs)

  pub data RedisRuns : Phase → List Phase → Type 0 where
    done : {p : Phase} → RedisRuns p []
    run :
        {q : Phase} {qs : List Phase} (m : Meta) (r : RedisInstance) (l : Log)
        → Issued (reconcile_live_redis k rt client sha256_hex m r) l (Command.update_status q)
        → RedisRuns q qs
        → RedisRuns r.phase (q ∷ qs)

-- Each phase is Initializing, Ready or Failed, and Initializing does not follow Failed.
abbrev pub AreMoves : Phase → List Phase → Type 0
AreMoves p [] = Unit
AreMoves p (q ∷ qs) =
    ((q ≡ Phase.ready) ⊎ ((q ≡ Phase.failed) ⊎ ((q ≡ Phase.initializing) × (p ≢ Phase.failed))))
    × AreMoves q qs

IsMove-cases :
    (p q : Phase)
    → IsMove p q
    → (q ≡ Phase.ready) ⊎ ((q ≡ Phase.failed) ⊎ ((q ≡ Phase.initializing) × (p ≢ Phase.failed)))
IsMove-cases p Phase.ready h = inl refl
IsMove-cases p Phase.failed h = inr (inl refl)
IsMove-cases Phase.failed Phase.initializing h = elim h [ ]
IsMove-cases Phase.unset Phase.initializing h = inr (inr (refl, λ e. cc))
IsMove-cases Phase.initializing Phase.initializing h = inr (inr (refl, λ e. cc))
IsMove-cases Phase.ready Phase.initializing h = inr (inr (refl, λ e. cc))
IsMove-cases Phase.scaling Phase.initializing h = inr (inr (refl, λ e. cc))
IsMove-cases Phase.recovering Phase.initializing h = inr (inr (refl, λ e. cc))
IsMove-cases p Phase.unset h = elim h [ ]
IsMove-cases p Phase.scaling h = elim h [ ]
IsMove-cases p Phase.recovering h = elim h [ ]

module _ (k : Kube) (rt : Runtime) (client : Option RedisClient) (sha256_hex : Str → Str) where
  -- One reconciliation of servers under sentinels only writes phases that follow the one it read.
  pub sentinel_writes-IsMove :
      (m : Meta) (rs : RedisSentinel) (l : Log) (q : Phase)
      → Issued (reconcile_live_sentinel k rt client sha256_hex m rs) l (Command.update_status q)
      → IsMove rs.phase q
  sentinel_writes-IsMove m rs l q i =
      Issued-holds (Writes rs.phase) _ l (Command.update_status q) i
        (Keeps-reconcile_live_sentinel k rt client sha256_hex m rs l).0

  redis_writes-IsMove :
      (m : Meta) (r : RedisInstance) (l : Log) (q : Phase)
      → Issued (reconcile_live_redis k rt client sha256_hex m r) l (Command.update_status q)
      → IsMove r.phase q
  redis_writes-IsMove m r l q i =
      Issued-holds (Writes r.phase) _ l (Command.update_status q) i
        (Keeps-reconcile_live_redis k rt client sha256_hex m r l).0

  -- Along any sequence of reconciliations of servers under sentinels, from whatever phase, every
  -- phase that is written is Initializing, Ready or Failed, and a run that reads Failed does not write
  -- Initializing: what has failed stays Failed until it is Ready.
  pub SentinelRuns-AreMoves :
      {p : Phase} {qs : List Phase} → SentinelRuns k rt client sha256_hex p qs → AreMoves p qs
  SentinelRuns-AreMoves SentinelRuns.done = tt
  SentinelRuns-AreMoves (SentinelRuns.run {q} m rs l i h) =
      (IsMove-cases rs.phase q (sentinel_writes-IsMove m rs l q i), SentinelRuns-AreMoves h)

  pub RedisRuns-AreMoves :
      {p : Phase} {qs : List Phase} → RedisRuns k rt client sha256_hex p qs → AreMoves p qs
  RedisRuns-AreMoves RedisRuns.done = tt
  RedisRuns-AreMoves (RedisRuns.run {q} m r l i h) =
      (IsMove-cases r.phase q (redis_writes-IsMove m r l q i), RedisRuns-AreMoves h)
