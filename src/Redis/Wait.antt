-- ===== src/Redis/Wait.antt =====
-- The loops that poll until a deadline: `WaitForClusterReady` and `waitForKnownNodes` of
-- internal/redis/cluster.go, `WaitForPing` and `WaitForAllPings` of internal/redis/health.go.
-- Times are in nanoseconds. The last error that `WaitForPing` wraps is left out. A loop takes fuel, one unit for each round.
pub mod Ends
use kubernetes_redis_operato.Prelude.{
  ℕ, zero, suc, ◌+◌, ◌*◌, true, false, Option, none, some, List, inl, inr, ltb, if◌then◌else◌,
}
use kubernetes_redis_operato.Prelude.Int.{pos, ltb_ℤ}
use kubernetes_redis_operato.Go.Text.{Str, codes, str_eq}
use kubernetes_redis_operato.Redis.Effect.{
  Error, Halt, M, pure, fail, stop, attempt, for_each, ◌>>=◌, ◌>>◌,
}
use kubernetes_redis_operato.Redis.Client.{RedisClient, Runtime}
use kubernetes_redis_operato.Redis.Calls

abbrev pub second : ℕ
second = 1_000_000_000

module _ (rt : Runtime) where
  -- `for time.Now().Before(deadline) { probe; select { … time.After(2 * time.Second) } }`, and the
  -- error behind the loop.
  unfoldable pub poll : {A : Type 0} → ℕ → ℕ → M (Option A) → Error → M A
  poll zero deadline probe timed_out = stop Halt.out_of_fuel
  poll (suc fuel) deadline probe timed_out = do
    t ← Calls.clock rt
    if ltb t deadline
        then (do
          r ← probe
          elim r [
            | some a ↦ pure a
            | none ↦ Calls.wait rt (2 * second) >> poll fuel deadline probe timed_out
          ])
        else fail timed_out

module _ (c : RedisClient) where
  -- A probe asks once, and takes an error for a no.
  abbrev pub probe_ready : Str → M (Option (Unit {0}))
  probe_ready addr = do
    r ← attempt (Calls.cluster_info c addr)
    pure (elim r [ inl _ ↦ none | inr i ↦ if str_eq i.state (codes "ok") then some tt else none ])

  abbrev pub probe_known : Str → ℕ → M (Option (Unit {0}))
  probe_known addr expected = do
    r ← attempt (Calls.cluster_info c addr)
    pure (elim r [
      | inl _ ↦ none
      | inr i ↦ if ltb_ℤ i.known_nodes (pos expected) then none else some tt
    ])

  abbrev pub probe_ping : Str → M (Option (Unit {0}))
  probe_ping addr = do
    r ← attempt (Calls.ping c addr)
    pure (elim r [ inl _ ↦ none | inr _ ↦ some tt ])

module _ (rt : Runtime) (c : RedisClient) (fuel : ℕ) where
  unfoldable pub wait_for_cluster_ready : Str → ℕ → M (Unit {0})
  wait_for_cluster_ready addr timeout = do
    start ← Calls.clock rt
    poll rt fuel (start + timeout) (probe_ready c addr) (Error.not_ready addr)

  unfoldable pub wait_for_known_nodes : Str → ℕ → ℕ → M (Unit {0})
  wait_for_known_nodes addr expected timeout = do
    start ← Calls.clock rt
    poll rt fuel (start + timeout) (probe_known c addr expected) (Error.not_known addr expected)

  unfoldable pub wait_for_ping : Str → ℕ → M (Unit {0})
  wait_for_ping addr timeout = do
    start ← Calls.clock rt
    poll rt fuel (start + timeout) (probe_ping c addr) (Error.no_ping addr)

  unfoldable pub wait_for_all_pings : List Str → ℕ → M (Unit {0})
  unfolding wait_for_ping for_each
  wait_for_all_pings addrs timeout = for_each (λ addr. wait_for_ping addr timeout) addrs
