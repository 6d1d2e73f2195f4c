-- ===== src/Redis/Wait/Ends.antt =====
-- The polling loops end, and succeed only behind a probe that said yes.
use kubernetes_redis_operato.Prelude.{
  ℕ, zero, suc, ◌+◌, ◌*◌, ◌≤◌, ◌≡◌, ◌≢◌, ◌⊎◌, inl, inr, Option, none, some, ◌∷◌, arith, ltb,
  Bool-cases,
}
use kubernetes_redis_operato.Go.Text.{Str, codes, str_eq, str_eq_iff}
use kubernetes_redis_operato.Redis.Effect.{Error, Result, Halt, Command, Log, M, answer_cases}
use kubernetes_redis_operato.Redis.Node.{ClusterInfo}
use kubernetes_redis_operato.Redis.Client.{RedisClient, Runtime}
use kubernetes_redis_operato.Redis.Wait.{poll, second, probe_ready, wait_for_cluster_ready}

-- The clock never goes back, and a timer that fires has waited for its time.
pub record IsClock (rt : Runtime) : Type 0 where
  pub forward : (e : Command) (l : Log) → rt.now l ≤ rt.now (e ∷ l)
  pub fires :
      (d : ℕ) (l : Log)
      → rt.select (Command.wait d ∷ l) ≡ inr tt
      → rt.now l + d ≤ rt.now (Command.wait d ∷ l)

-- A probe that issues one command and returns a yes or a no.
abbrev pub IsProbe : {A : Type 0} → M (Option A) → Command → Type 0
IsProbe {A} probe e =
    (l : Log)
    → (probe l ≡ (Result.ok none, e ∷ l)) ⊎ ((a : A) × (probe l ≡ (Result.ok (some a), e ∷ l)))

module _ (rt : Runtime) (clock : IsClock rt) where
  -- Each round lasts two seconds, so the fuel of one round for every two seconds suffices.
  pub poll_ends :
      {A : Type 0} (fuel deadline : ℕ) (probe : M (Option A)) (e : Command) (timed_out : Error)
      (l : Log)
      → IsProbe probe e
      → deadline ≤ rt.now l + fuel * (2 * second)
      → (h : Halt) → (poll rt (suc fuel) deadline probe timed_out l).0 ≢ Result.halt h
  unfolding poll
  poll_ends zero deadline probe e timed_out l isp room h =
      elim (Bool-cases (ltb (rt.now (Command.clock ∷ l)) deadline)) [
        | inl before ↦ absurd (ground (arith, clock.forward Command.clock l))
        | inr late ↦ rw late (λ q. cc)
      ]
  poll_ends (suc fuel) deadline probe e timed_out l isp room h =
      elim (Bool-cases (ltb (rt.now (Command.clock ∷ l)) deadline)) [
        | inr late ↦ rw late (λ q. cc)
        | inl before ↦ elim (isp (Command.clock ∷ l)) [
          | inr (a, p) ↦ rw (before, p) (λ q. cc)
          | inl p ↦
              elim (answer_cases (rt.select (Command.wait (2 * second) ∷ e ∷ Command.clock ∷ l))) [
                | inl (x, q) ↦ rw (before, p, q) (λ q'. cc)
                | inr (_, q) ↦
                    rw (before, p, q)
                      (poll_ends fuel deadline probe e timed_out
                        (Command.wait (2 * second) ∷ e ∷ Command.clock ∷ l) isp
                        (omega (
                          arith,
                          clock.forward Command.clock l,
                          clock.forward e (Command.clock ∷ l),
                          clock.fires (2 * second) (e ∷ Command.clock ∷ l) q,
                        ))
                        h)
              ]
        ]
      ]

-- A loop that succeeds ended with a probe that said yes, and issued nothing behind it.
pub poll_ok :
    (rt : Runtime) {A : Type 0} (fuel deadline : ℕ) (probe : M (Option A)) (e : Command)
    (timed_out : Error) (l : Log) (a : A)
    → IsProbe probe e
    → (poll rt fuel deadline probe timed_out l).0 ≡ Result.ok a
    → (before : Log) × (probe before
        ≡ (Result.ok (some a), (poll rt fuel deadline probe timed_out l).1))
unfolding poll
poll_ok rt zero deadline probe e timed_out l a isp h = cc
poll_ok rt (suc fuel) deadline probe e timed_out l a isp h =
    elim (Bool-cases (ltb (rt.now (Command.clock ∷ l)) deadline)) [
      | inr late ↦ cc (rw late at h)
      | inl before ↦ elim (isp (Command.clock ∷ l)) [
        | inr (b, p) ↦ (
          Command.clock ∷ l,
          rw (before, p) (let same : b ≡ a = cc (rw (before, p) at h) in rw same),
        )
        | inl p ↦
            elim (answer_cases (rt.select (Command.wait (2 * second) ∷ e ∷ Command.clock ∷ l))) [
              | inl (x, q) ↦ cc (rw (before, p, q) at h)
              | inr (_, q) ↦
                  rw (before, p, q)
                    (poll_ok rt fuel deadline probe e timed_out _ a isp (rw (before, p, q) at h))
            ]
      ]
    ]

module _ (c : RedisClient) where
  probe_ready-IsProbe : (addr : Str) → IsProbe (probe_ready c addr) (Command.cluster_info addr)
  probe_ready-IsProbe addr l =
      elim (answer_cases (c.cluster_info (Command.cluster_info addr ∷ l))) [
        | inl (x, p) ↦ inl (rw p)
        | inr (i, p) ↦ elim (Bool-cases (str_eq i.state (codes "ok"))) [
          | inl q ↦ inr (tt, rw (p, q))
          | inr q ↦ inl (rw (p, q))
        ]
      ]

  -- The probe says yes only to the state "ok".
  probe_ready_sound :
      (addr : Str) (l l' : Log)
      → probe_ready c addr l ≡ (Result.ok (some tt), l')
      → (l' ≡ Command.cluster_info addr ∷ l)
        × (i : ClusterInfo) × (c.cluster_info l' ≡ inr i)
        × (i.state ≡ codes "ok")
  probe_ready_sound addr l l' h =
      elim (answer_cases (c.cluster_info (Command.cluster_info addr ∷ l))) [
        | inl (x, p) ↦ cc (rw p at h)
        | inr (i, p) ↦ elim (Bool-cases (str_eq i.state (codes "ok"))) [
          | inr q ↦ cc (rw (p, q) at h)
          | inl q ↦
              let e : l' ≡ Command.cluster_info addr ∷ l = cc (rw (p, q) at h) in
              (e, i, rw e p, (str_eq_iff i.state (codes "ok")).0 q)
        ]
      ]

module _ (rt : Runtime) (c : RedisClient) where
  -- Given a clock, `WaitForClusterReady` ends. Its success means that the last thing it did was to
  -- read the state "ok" of the node.
  pub wait_for_cluster_ready_lem :
      (fuel timeout : ℕ) (addr : Str) (l : Log)
      → IsClock rt
      → timeout ≤ fuel * (2 * second)
      → ((h : Halt) → (wait_for_cluster_ready rt c (suc fuel) addr timeout l).0 ≢ Result.halt h)
        × ((wait_for_cluster_ready rt c (suc fuel) addr timeout l).0 ≡ Result.ok tt
            → (before : Log) × (i : ClusterInfo) × ((wait_for_cluster_ready rt c
                  (suc fuel)
                  addr
                  timeout
                  l).1
                ≡ Command.cluster_info addr ∷ before)
              × (c.cluster_info (Command.cluster_info addr ∷ before) ≡ inr i)
              × (i.state ≡ codes "ok"))
  unfolding wait_for_cluster_ready
  wait_for_cluster_ready_lem fuel timeout addr l clock room =
      let start = Command.clock ∷ l in
      let deadline = rt.now start + timeout in
      (
        poll_ends rt clock fuel deadline (probe_ready c addr) (Command.cluster_info addr)
            (Error.not_ready addr) start (probe_ready-IsProbe c addr) (omega arith),
        λ h.
            let (before, p) =
              poll_ok rt (suc fuel) deadline (probe_ready c addr) (Command.cluster_info addr)
                (Error.not_ready addr) start tt (probe_ready-IsProbe c addr) h in
            let (e, i, q, r) = probe_ready_sound c addr before _ p in (before, i, e, rw e at q, r),
      )
