-- ===== src/Controller/Conditions.antt =====
-- The condition Ready in the status of the custom resources of internal/controller: what
-- `updateStatus`, `updateSentinelStatus`, `updateClusterStatus` and the functions that report a failure
-- set it to. `SetStatusCondition` of k8s.io/apimachinery is a parameter. The counts in a
-- message are those of the status, in int32.
pub mod Told
use kubernetes_redis_operato.Prelude.{
  ℕ, ◌≡◌, Bool, true, false, Option, none, some, List, [], ◌∷◌, ◌++◌, if◌then◌else◌,
}
use kubernetes_redis_operato.Prelude.Int.{ℤ, pos, ltb_ℤ}
use kubernetes_redis_operato.Go.Text.{Str, codes, str_eq}
use kubernetes_redis_operato.Go.Number.{itoa_ℤ}
use kubernetes_redis_operato.Api.Types.{Phase}
use kubernetes_redis_operato.Api.Objects.{RedisSentinel, RedisCluster}
use kubernetes_redis_operato.Controller.Standalone.{phase_of_readiness}
use kubernetes_redis_operato.Controller.Sentinel.{all_sentinels_ready}
use kubernetes_redis_operato.Controller.Status.{RedisClusterStatus}
use kubernetes_redis_operato.Controller.Names.{total_replicas}

-- A `metav1.Condition`; `holds` is whether `Status` is "True", and "False" if not.
pub record Condition : Type 0 where
  pub kind : Str
  pub holds : Bool
  pub observed_generation : ℤ
  pub last_transition_time : ℕ
  pub reason : Str
  pub message : Str

abbrev pub condition_ready : Str
condition_ready = codes "Ready"

abbrev pub reason_ready : Str
reason_ready = codes "Ready"

abbrev pub reason_reconciling : Str
reason_reconciling = codes "Reconciling"

abbrev pub reason_for : Bool → Str
reason_for ready = if ready then reason_ready else reason_reconciling

-- "3/5 ready"
abbrev ready_of : ℤ → ℤ → Str
ready_of n total = itoa_ℤ n ++ codes "/" ++ itoa_ℤ total ++ codes " ready"

-- The condition that an update of the status sets, at a generation and a time.
unfoldable pub redis_condition : ℤ → ℕ → ℤ → Condition
unfolding itoa_ℤ
redis_condition generation now n = record {
  kind = condition_ready;
  holds = ltb_ℤ (pos 0) n;
  observed_generation = generation;
  last_transition_time = now;
  reason = reason_for (ltb_ℤ (pos 0) n);
  message =
      if ltb_ℤ (pos 0) n
      then itoa_ℤ n ++ codes "/1 pods ready"
      else codes "waiting for pods to become ready";
}

unfoldable pub sentinel_condition : RedisSentinel → ℤ → ℕ → ℤ → ℤ → Condition
unfolding itoa_ℤ all_sentinels_ready
sentinel_condition rs generation now replicas sentinels = record {
  kind = condition_ready;
  holds = all_sentinels_ready rs replicas sentinels;
  observed_generation = generation;
  last_transition_time = now;
  reason = reason_for (all_sentinels_ready rs replicas sentinels);
  message =
      codes "redis: "
      ++ ready_of replicas rs.spec.replicas
      ++ codes ", sentinels: "
      ++ ready_of sentinels rs.spec.sentinel_replicas;
}

unfoldable pub cluster_condition : RedisCluster → ℤ → ℕ → RedisClusterStatus → Condition
unfolding itoa_ℤ total_replicas
cluster_condition rc generation now s = record {
  kind = condition_ready;
  holds = s.ready;
  observed_generation = generation;
  last_transition_time = now;
  reason = reason_for s.ready;
  message =
      codes "masters: "
      ++ ready_of s.ready_masters rc.spec.masters
      ++ codes ", replicas: "
      ++ ready_of s.ready_replicas (total_replicas rc.spec)
      ++ codes ", slots: "
      ++ itoa_ℤ s.assigned_slots
      ++ codes "/16384, state: "
      ++ s.cluster_state;
}

-- `setFailedStatus` and its kin.
unfoldable pub failed_condition : ℤ → ℕ → Str → Str → Condition
failed_condition generation now reason message = record {
  kind = condition_ready;
  holds = false;
  observed_generation = generation;
  last_transition_time = now;
  reason = reason;
  message = message;
}

-- What the three controllers write to a status over time; an update is by what was counted.
pub data Write (R : Type 0) : Type 0 where
  started : Write R
  updated : ℤ → ℕ → R → Write R
  failed : ℤ → ℕ → Str → Str → Write R

-- A phase, and the conditions.
abbrev pub Status : Type 0
Status = Phase × List Condition

-- The first phase is written if there is none.
abbrev pub started_phase : Phase → Phase
started_phase Phase.unset = Phase.initializing
started_phase phase = phase

module _ (set_status_condition : List Condition → Condition → List Condition) where
  abbrev pub write_failed : List Condition → ℤ → ℕ → Str → Str → Status
  write_failed cs g now reason message =
      (Phase.failed, set_status_condition cs (failed_condition g now reason message))

  unfoldable pub write_redis : Status → Write ℤ → Status
  unfolding redis_condition failed_condition
  write_redis (phase, cs) started = (started_phase phase, cs)
  write_redis (phase, cs) (updated g now n) = (
    phase_of_readiness (ltb_ℤ (pos 0) n) phase,
    set_status_condition cs (redis_condition g now n),
  )
  write_redis (phase, cs) (failed g now reason message) = write_failed cs g now reason message

  unfoldable pub write_sentinel : Status → Write (RedisSentinel × ℤ × ℤ) → Status
  unfolding sentinel_condition failed_condition all_sentinels_ready
  write_sentinel (phase, cs) started = (started_phase phase, cs)
  write_sentinel (phase, cs) (updated g now (rs, replicas, sentinels)) = (
    phase_of_readiness (all_sentinels_ready rs replicas sentinels) phase,
    set_status_condition cs (sentinel_condition rs g now replicas sentinels),
  )
  write_sentinel (phase, cs) (failed g now reason message) = write_failed cs g now reason message

abbrev pub write_all : {R : Type 0} → (Status → Write R → Status) → Status → List (Write R) → Status
write_all write s [] = s
write_all write s (w ∷ ws) = write_all write (write s w) ws
