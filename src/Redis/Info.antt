-- ===== src/Redis/Info.antt =====
-- The queries of internal/redis/health.go that read a field of `INFO`, with `GetRole` and `IsHealthy`.
use kubernetes_redis_operato.Prelude.{Bool, false, true, [], ◌∷◌, Option, none, some, inl, inr}
use kubernetes_redis_operato.Prelude.Int.{ℤ, pos}
use kubernetes_redis_operato.Go.Text.{Str, codes}
use kubernetes_redis_operato.Go.Number.{sscanf_d}
use kubernetes_redis_operato.Go.Map.{lookup, or_zero}
use kubernetes_redis_operato.Redis.Effect.{Error, M, pure, fail, wrapping, attempt, ◌>>=◌}
use kubernetes_redis_operato.Redis.Client.{RedisClient}
use kubernetes_redis_operato.Redis.Calls

-- A variable that `Sscanf` fills stays 0 where the text is no number.
abbrev scanned : Option ℤ → ℤ
scanned none = pos 0
scanned (some n) = n

-- `if v := info[key]; v != "" { Sscanf }`
abbrev pub scan_field : Str → ℤ
scan_field [] = pos 0
scan_field (a ∷ s) = scanned (sscanf_d (a ∷ s))

abbrev version_or_error : Option Str → M Str
version_or_error none = fail Error.no_version
version_or_error (some v) = pure v

module _ (c : RedisClient) where
  abbrev pub get_role : Str → M Str
  get_role addr = Calls.role c addr

  unfoldable pub is_healthy : Str → M Bool
  is_healthy addr = do
    r ← attempt (Calls.ping c addr)
    pure (elim r [ inl _ ↦ false | inr _ ↦ true ])

  unfoldable pub get_redis_version : Str → M Str
  get_redis_version addr = do
    m ← wrapping (Error.info_failed addr) (Calls.info c addr (codes "server"))
    version_or_error (lookup (codes "redis_version") m)

  unfoldable pub count_connected_clients : Str → M ℤ
  count_connected_clients addr = do
    m ← Calls.info c addr (codes "clients")
    pure (scan_field (or_zero [] (lookup (codes "connected_clients") m)))

  unfoldable pub get_replication_lag : Str → M ℤ
  get_replication_lag addr = do
    m ← Calls.info c addr (codes "replication")
    pure (scan_field (or_zero [] (lookup (codes "master_repl_offset") m)))
