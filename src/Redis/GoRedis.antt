-- ===== src/Redis/GoRedis.antt =====
-- The client library go-redis, as internal/redis/client.go uses it. Its answers are parameters, and may
-- depend on all that was done before.
use kubernetes_redis_operato.Prelude.{ℕ, Option, List, ◌⊎◌}
use kubernetes_redis_operato.Prelude.Int.{ℤ}
use kubernetes_redis_operato.Go.Text.{Str}
use kubernetes_redis_operato.Go.Map.{Map}
use kubernetes_redis_operato.Redis.Effect.{Error, Log}

-- `goredis.Options`, with the fields that are set; durations in nanoseconds. `Tls` stands for
-- `tls.Config`.
pub record Options (Tls : Type 0) : Type 0 where
  pub addr : Str
  pub password : Str
  pub dial_timeout : ℕ
  pub read_timeout : ℕ
  pub write_timeout : ℕ
  pub tls_config : Option Tls

-- An argument of `Do`.
pub data Arg : Type 0 where
  word : Str → Arg
  number : ℤ → Arg

-- The methods of the library that are called, each with its arguments; `words` is `Do`.
pub data Request : Type 0 where
  ping save cluster_info cluster_nodes cluster_failover : Request
  info : List Str → Request
  config_set : Str → Str → Request
  config_get cluster_replicate cluster_forget : Str → Request
  cluster_meet : Str → Str → Request
  cluster_add_slots cluster_del_slots : List ℤ → Request
  cluster_get_keys_in_slot : ℤ → ℕ → Request
  cluster_count_keys_in_slot : ℤ → Request
  migrate : Str → Str → Str → ℕ → ℤ → Request
  words : List Arg → Request

-- The value that `Do(...).Result()` returns: a text, a number, no value, or a list.
mutual
  pub data Reply : Type 0 where
    text : Str → Reply
    number : ℤ → Reply
    absent : Reply
    array : Replies → Reply

  pub data Replies : Type 0 where
    none : Replies
    more : Reply → Replies → Replies

-- One function for each type of result that a request is asked for: `Err()`, `Result()` and
-- `StringSlice()`.
pub record GoRedis (Tls : Type 0) : Type 0 where
  pub err : Options Tls → Request → Log → Error ⊎ (Unit {0})
  pub text : Options Tls → Request → Log → Error ⊎ Str
  pub texts : Options Tls → Request → Log → Error ⊎ (List Str)
  pub number : Options Tls → Request → Log → Error ⊎ ℤ
  pub pairs : Options Tls → Request → Log → Error ⊎ (Map Str)
  pub reply : Options Tls → Request → Log → Error ⊎ Reply
