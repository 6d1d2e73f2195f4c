-- ===== src/Controller/Reconcile/Phases.antt =====
-- The phases that the controllers of Redis and RedisSentinel write.
use kubernetes_redis_operato.Prelude.{Bool, true, false}
use kubernetes_redis_operato.Api.Types.{Phase}
use kubernetes_redis_operato.Redis.Effect.{Command, M}
use kubernetes_redis_operato.Controller.Standalone.{phase_of_readiness}
use kubernetes_redis_operato.Controller.Reconcile.Live.{started, Keeps, IsLater, step, run_call}
use kubernetes_redis_operato.Controller.Reconcile.{starting}
use kubernetes_redis_operato.Controller.Kube.{Kube, Requeue}

-- From the first phase, one reconciliation may write the second: a failure is left only for Ready, and
-- nothing writes Scaling, Recovering or no phase.
abbrev pub IsMove : Phase → Phase → Type 0
IsMove p Phase.ready = Unit
IsMove p Phase.failed = Unit
IsMove Phase.failed Phase.initializing = ⊥
IsMove p Phase.initializing = Unit
IsMove p _ = ⊥

-- Every status that is written has such a phase.
abbrev pub Writes : Phase → Command → Type 0
Writes p (Command.update_status q) = IsMove p q
Writes p _ = Unit

pub phase_of_readiness-IsMove :
    (ready : Bool) (p : Phase) → IsMove p (phase_of_readiness ready (started p))
phase_of_readiness-IsMove true p = tt
phase_of_readiness-IsMove false Phase.unset = tt
phase_of_readiness-IsMove false Phase.initializing = tt
phase_of_readiness-IsMove false Phase.ready = tt
phase_of_readiness-IsMove false Phase.failed = tt
phase_of_readiness-IsMove false Phase.scaling = tt
phase_of_readiness-IsMove false Phase.recovering = tt

-- The first update of the status, and what follows it.
pub Keeps-starting :
    (k : Kube) (p : Phase) (f : Phase → M Requeue)
    → Keeps (Writes p) IsLater (f (started p))
    → Keeps (Writes p) IsLater (starting k p f)
Keeps-starting k Phase.unset f h =
    (step {P = Writes Phase.unset}
      (run_call (Command.update_status Phase.initializing) k.update_status tt)
      (λ _. (f Phase.initializing, h))).1
Keeps-starting k Phase.initializing f h = h
Keeps-starting k Phase.ready f h = h
Keeps-starting k Phase.failed f h = h
Keeps-starting k Phase.scaling f h = h
Keeps-starting k Phase.recovering f h = h
