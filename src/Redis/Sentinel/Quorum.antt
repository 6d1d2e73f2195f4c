-- ===== src/Redis/Sentinel/Quorum.antt =====
-- `WaitForMaster` ends, and `WaitForSentinelQuorum` counts each sentinel once.
use kubernetes_redis_operato.Prelude.{
  ◌<◌, ℕ, suc, zero, ◌+◌, ◌*◌, ◌≤◌, ◌≡◌, ◌≢◌, ◌⊎◌, refl, sym, arith, inl, inr, true, Bool-cases,
  Option, none, some, List, [], ◌∷◌, length, ltb,
}
use kubernetes_redis_operato.Prelude.Int.{ℤ, pos, ltb_ℤ}
use kubernetes_redis_operato.Go.Text.{Str}
use kubernetes_redis_operato.Redis.Effect.{Error, Result, Halt, Command, Log, M, answer_cases}
use kubernetes_redis_operato.Redis.Client.{RedisClient, Runtime}
use kubernetes_redis_operato.Redis.Wait.{poll, second}
use kubernetes_redis_operato.Redis.Wait.Ends.{IsClock, IsProbe, poll_ends, poll_ok}
use kubernetes_redis_operato.Redis.Sentinel.{
  probe_master, wait_for_master, count_healthy, probe_quorum, wait_for_sentinel_quorum,
  reports_master, some_master,
}

module _ (c : RedisClient) where
  some_master-cases :
      (r : Str × ℤ) → (some_master r ≡ none) ⊎ ((a : Str × ℤ) × (some_master r ≡ some a))
  some_master-cases ([], port) = inl refl
  some_master-cases (a ∷ ip, port) = inr ((a ∷ ip, port), refl)

  some_master_sound : (r a : Str × ℤ) → some_master r ≡ some a → (r ≡ a) × (a.0 ≢ [])
  some_master_sound ([], port) a h = cc
  some_master_sound (b ∷ ip, port) a h =
      let e : (b ∷ ip, port) ≡ a = cc in (e, rw (sym e) (λ q. cc))

  probe_master-IsProbe :
      (addr master : Str)
      → IsProbe (probe_master c addr master) (Command.sentinel_get_master_addr addr master)
  probe_master-IsProbe addr master l =
      elim (answer_cases
        (c.sentinel_get_master_addr (Command.sentinel_get_master_addr addr master ∷ l))) [
          | inl (x, p) ↦ inl (rw p)
          | inr (r, p) ↦ elim (some_master-cases r) [
            | inl q ↦ inl (rw (p, q))
            | inr (a, q) ↦ inr (a, rw (p, q))
          ]
        ]

  probe_master_sound :
      (addr master : Str) (l l' : Log) (a : Str × ℤ)
      → probe_master c addr master l ≡ (Result.ok (some a), l')
      → (l' ≡ Command.sentinel_get_master_addr addr master ∷ l)
        × (c.sentinel_get_master_addr l' ≡ inr a)
        × (a.0 ≢ [])
  probe_master_sound addr master l l' a h =
      elim (answer_cases
        (c.sentinel_get_master_addr (Command.sentinel_get_master_addr addr master ∷ l))) [
          | inl (x, p) ↦ cc (rw p at h)
          | inr (r, p) ↦ elim (some_master-cases r) [
            | inl q ↦ cc (rw (p, q) at h)
            | inr (b, q) ↦
                let e : l' ≡ Command.sentinel_get_master_addr addr master ∷ l =
                  cc (rw (p, q) at h) in
                let same : b ≡ a = cc (rw (p, q) at h) in
                let (f, g) = some_master_sound r b q in (e, rw (e, p, f, same), rw (sym same) g)
          ]
        ]

  -- At most one healthy sentinel is counted for each address.
  count_healthy_bound :
      (master : Str) (n : ℕ) (addrs : List Str) (l : Log)
      → (k : ℕ) × (l' : Log) × (count_healthy c master n addrs l ≡ (Result.ok k, l'))
        × (k ≤ n + length addrs)
  unfolding count_healthy
  count_healthy_bound master n [] l = (n, l, refl, omega arith)
  count_healthy_bound master n (addr ∷ addrs) l =
      let sent = Command.sentinel_master addr master ∷ l in
      elim (answer_cases (c.sentinel_master sent)) [
        | inl (x, p) ↦
            let (k, l', e, h) = count_healthy_bound master n addrs sent in
            (k, l', rw p e, omega arith)
        | inr (m, p) ↦ elim (Bool-cases (reports_master m)) [
          | inl q ↦
              let (k, l', e, h) = count_healthy_bound master (suc n) addrs sent in
              (k, l', rw (p, q) e, omega arith)
          | inr q ↦
              let (k, l', e, h) = count_healthy_bound master n addrs sent in
              (k, l', rw (p, q) e, omega arith)
        ]
      ]

  probe_quorum_short :
      (addrs : List Str) (master : Str) (quorum : ℕ) (l : Log)
      → length addrs < quorum
      → (l' : Log) × (probe_quorum c addrs master (pos quorum) l ≡ (Result.ok none, l'))
  probe_quorum_short addrs master quorum l short =
      let (k, l', e, h) = count_healthy_bound master 0 addrs l in
      let few : ltb_ℤ (pos k) (pos quorum) ≡ true = ground arith in (l', rw (e, few))

module _ (rt : Runtime) where
  -- A loop whose probe never says yes does not succeed.
  poll_never :
      {A : Type 0} (fuel deadline : ℕ) (probe : M (Option A)) (timed_out : Error) (l : Log) (a : A)
      → ((l' : Log) → (l'' : Log) × (probe l' ≡ (Result.ok none, l'')))
      → (poll rt fuel deadline probe timed_out l).0 ≢ Result.ok a
  unfolding poll
  poll_never zero deadline probe timed_out l a never = λ q. cc
  poll_never (suc fuel) deadline probe timed_out l a never =
      elim (Bool-cases (ltb (rt.now (Command.clock ∷ l)) deadline)) [
        | inr late ↦ rw late (λ q. cc)
        | inl before ↦
            let (m, p) = never (Command.clock ∷ l) in
            elim (answer_cases (rt.select (Command.wait (2 * second) ∷ m))) [
              | inl (x, q) ↦ rw (before, p, q) (λ q'. cc)
              | inr (_, q) ↦ rw (before, p, q) (poll_never fuel deadline probe timed_out _ a never)
            ]
      ]

module _ (rt : Runtime) (c : RedisClient) where
  -- Given a clock, `WaitForMaster` ends. Where it succeeds, the last thing it did was to ask the
  -- sentinel, whose answer was the address that it returns, with a host that is not empty.
  pub wait_for_master_lem :
      (fuel timeout : ℕ) (addr master : Str) (l : Log)
      → IsClock rt
      → timeout ≤ fuel * (2 * second)
      → ((h : Halt) → (wait_for_master rt c (suc fuel) addr master timeout l).0 ≢ Result.halt h)
        × ((a : Str × ℤ)
            → (wait_for_master rt c (suc fuel) addr master timeout l).0 ≡ Result.ok a
            → (before : Log) × ((wait_for_master rt c (suc fuel) addr master timeout l).1
                ≡ Command.sentinel_get_master_addr addr master ∷ before)
              × (c.sentinel_get_master_addr (Command.sentinel_get_master_addr addr master ∷ before)
                  ≡ inr a)
              × (a.0 ≢ []))
  unfolding wait_for_master
  wait_for_master_lem fuel timeout addr master l clock room =
      let start = Command.clock ∷ l in
      let deadline = rt.now start + timeout in
      let isp = probe_master-IsProbe c addr master in
      (
        poll_ends rt clock fuel deadline (probe_master c addr master)
            (Command.sentinel_get_master_addr addr master) Error.no_sentinel_master start isp
            (omega arith),
        λ a h.
            let (before, p) =
              poll_ok rt (suc fuel) deadline (probe_master c addr master)
                (Command.sentinel_get_master_addr addr master) Error.no_sentinel_master start a isp
                h in
            let (e, q, r) = probe_master_sound c addr master before _ a p in
            (before, e, rw e at q, r),
      )

  -- A quorum that is larger than the number of sentinels is never reported as reached: each sentinel
  -- counts once.
  pub wait_for_sentinel_quorum_short :
      (fuel timeout quorum : ℕ) (addrs : List Str) (master : Str) (l : Log)
      → length addrs < quorum
      → (wait_for_sentinel_quorum rt c fuel addrs master (pos quorum) timeout l).0 ≢ Result.ok tt
  unfolding wait_for_sentinel_quorum
  wait_for_sentinel_quorum_short fuel timeout quorum addrs master l short =
      poll_never rt fuel (rt.now (Command.clock ∷ l) + timeout)
        (probe_quorum c addrs master (pos quorum)) Error.no_quorum (Command.clock ∷ l) tt
        (λ l'. probe_quorum_short c addrs master quorum l' short)
