-- ===== src/Controller/Lifecycle/Settled.antt =====
-- When `reconcileClusterLifecycle` only reads.
use kubernetes_redis_operato.Prelude.{
  ◌&&◌, if◌then◌else◌, ℕ, zero, suc, ◌≡◌, ◌≢◌, refl, arith, true, false, Bool-cases, inl, inr, List,
  [], ◌∷◌,
}
use kubernetes_redis_operato.Prelude.Int.{ℤ, pos, ltb_ℤ}
use kubernetes_redis_operato.Go.Text.{codes}
use kubernetes_redis_operato.Go.Word.{int32}
use kubernetes_redis_operato.Api.Types.{Phase}
use kubernetes_redis_operato.Redis.Effect.{Result, Command, Log}
use kubernetes_redis_operato.Redis.Node.{ClusterInfo, ClusterNode}
use kubernetes_redis_operato.Redis.Client.{RedisClient, Runtime}
use kubernetes_redis_operato.Redis.Members.{ClusterState, state_of}
use kubernetes_redis_operato.Api.Objects.{RedisCluster}
use kubernetes_redis_operato.Controller.Names.{cluster_master_addr}
use kubernetes_redis_operato.Controller.Kube.{Requeue, Kube}
use kubernetes_redis_operato.Controller.Lifecycle.{
  Event, outcome, same, is_recovering, detect_scale, reachable, reconcile_cluster_lifecycle,
}

-- The phase behind a probe that found the state "ok", and its events.
abbrev pub settled_phase : Phase → Phase
settled_phase Phase.recovering = Phase.ready
settled_phase p = p

abbrev pub settled_events : Phase → List Event
settled_events Phase.recovering = Event.cluster_recovered ∷ []
settled_events _ = []

-- Recovery of a cluster that fails is announced once.
abbrev pub failing_events : Phase → List Event
failing_events Phase.recovering = []
failing_events _ = Event.cluster_failing ∷ []

some_slots : (i : ℤ) → i ≢ pos 0 → same i (pos 0) ≡ false
some_slots (pos zero) h = absurd (h refl)
some_slots (pos (suc n)) h = ground arith
some_slots _ h = ground arith

not_less : (a : ℤ) → ltb_ℤ a a ≡ false
not_less a = ground arith

module _ (rt : Runtime) (c : RedisClient) (k : Kube) (fuel : ℕ) (rc : RedisCluster) where
  detect_scale-done :
      (phase : Phase) (events : List Event) (s : ClusterState) (l : Log)
      → int32 s.size ≡ rc.spec.masters
      → detect_scale rt c k fuel rc phase events s l
        ≡ (Result.ok (outcome Requeue.done phase events), l)
  unfolding detect_scale
  detect_scale-done phase events s l size = elim (Bool-cases (ltb_ℤ (pos 0) rc.spec.masters)) [
    | inl e ↦ rw (size, not_less rc.spec.masters, e)
    | inr e ↦ rw (size, not_less rc.spec.masters, e)
  ]

  reachable-ok :
      (p : Phase) (s : ClusterState) (l : Log)
      → rc.phase ≡ p
      → s.slots_assigned ≢ pos 0
      → s.state ≡ codes "ok"
      → int32 s.size ≡ rc.spec.masters
      → reachable rt c k fuel rc s l
        ≡ (Result.ok (outcome Requeue.done (settled_phase p) (settled_events p)), l)
  unfolding reachable
  reachable-ok p s l e slots ok size = rw (some_slots s.slots_assigned slots, ok, e) (by_phase p)
    where
      by_phase :
          (p : Phase)
          → (if is_recovering p && true
                then detect_scale rt c k fuel rc Phase.ready (Event.cluster_recovered ∷ []) s
                else detect_scale rt c k fuel rc p [] s)
              l
            ≡ (Result.ok (outcome Requeue.done (settled_phase p) (settled_events p)), l)
      by_phase Phase.recovering =
          detect_scale-done Phase.ready (Event.cluster_recovered ∷ []) s l size
      by_phase Phase.unset = detect_scale-done Phase.unset [] s l size
      by_phase Phase.initializing = detect_scale-done Phase.initializing [] s l size
      by_phase Phase.ready = detect_scale-done Phase.ready [] s l size
      by_phase Phase.failed = detect_scale-done Phase.failed [] s l size
      by_phase Phase.scaling = detect_scale-done Phase.scaling [] s l size

  reachable-fail :
      (p : Phase) (s : ClusterState) (l : Log)
      → rc.phase ≡ p
      → s.slots_assigned ≢ pos 0
      → s.state ≡ codes "fail"
      → reachable rt c k fuel rc s l
        ≡ (Result.ok (outcome (Requeue.after 15) Phase.recovering (failing_events p)), l)
  unfolding reachable
  reachable-fail Phase.recovering s l e slots fail =
      rw (some_slots s.slots_assigned slots, fail, e) refl
  reachable-fail Phase.unset s l e slots fail = rw (some_slots s.slots_assigned slots, fail, e) refl
  reachable-fail Phase.initializing s l e slots fail =
      rw (some_slots s.slots_assigned slots, fail, e) refl
  reachable-fail Phase.ready s l e slots fail = rw (some_slots s.slots_assigned slots, fail, e) refl
  reachable-fail Phase.failed s l e slots fail =
      rw (some_slots s.slots_assigned slots, fail, e) refl
  reachable-fail Phase.scaling s l e slots fail =
      rw (some_slots s.slots_assigned slots, fail, e) refl

  -- A cluster that answers, has slots and is in the state "ok" with as many masters as specified is
  -- only probed, and not queued again; a recovery is announced, and ends in the phase Ready. A
  -- cluster in the state "fail" is only probed too, whatever its size is: it goes into the phase
  -- Recovering, is queued again after 15 seconds, and that is announced when it is news.
  pub reconcile_cluster_lifecycle_reads :
      (i : ClusterInfo) (nodes : List ClusterNode) (l : Log)
      → let a = cluster_master_addr rc (pos 0) in
        let end = Command.cluster_nodes a ∷ Command.cluster_info a ∷ l in
        c.cluster_info (Command.cluster_info a ∷ l) ≡ inr i
        → c.cluster_nodes end ≡ inr nodes
        → i.slots_assigned ≢ pos 0
        → (i.state ≡ codes "ok"
            → int32 i.cluster_size ≡ rc.spec.masters
            → reconcile_cluster_lifecycle rt c k fuel rc l ≡ (
              Result.ok (outcome Requeue.done (settled_phase rc.phase) (settled_events rc.phase)),
              end,
            ))
          × (i.state ≡ codes "fail"
              → reconcile_cluster_lifecycle rt c k fuel rc l ≡ (
                Result.ok (outcome (Requeue.after 15) Phase.recovering (failing_events rc.phase)),
                end,
              ))
  unfolding reconcile_cluster_lifecycle
  reconcile_cluster_lifecycle_reads i nodes l p q slots = (
    λ ok size. rw (p, q) (reachable-ok rc.phase (state_of i nodes) _ refl slots ok size),
    λ fail. rw (p, q) (reachable-fail rc.phase (state_of i nodes) _ refl slots fail),
  )
