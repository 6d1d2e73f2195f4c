-- ===== src/Redis/Remote.antt =====
-- The type `client` of internal/redis/client.go and its methods, which implement `RedisClient` by
-- calls of go-redis: the options, and how replies are read.
pub mod Methods
pub mod Dispatch
pub mod Seen
pub mod Master
use kubernetes_redis_operato.Prelude.{
  ℕ, ◌*◌, ◌^◌, Bool, Option, none, some, List, [], ◌∷◌, ◌⊎◌, inl, inr, if◌then◌else◌,
}
use kubernetes_redis_operato.Prelude.Int.{ℤ, pos}
use kubernetes_redis_operato.Go.Text.{Str, codes}
use kubernetes_redis_operato.Go.Map.{Map, insert, lookup, or_zero}
use kubernetes_redis_operato.Go.Number.{atoi, itoa_ℤ}
use kubernetes_redis_operato.Go.Word.{int64}
use kubernetes_redis_operato.Redis.Effect.{Error, Log}
use kubernetes_redis_operato.Redis.Node.{ClusterInfo, ClusterNode}
use kubernetes_redis_operato.Redis.Parse.{
  parse_info_output, parse_cluster_info, parse_cluster_nodes,
}
use kubernetes_redis_operato.Redis.GoRedis.{Options, Arg, Request, Reply, Replies, GoRedis}

pub record ClientOptions (Tls : Type 0) : Type 0 where
  pub password : Str
  pub tls_config : Option Tls
  pub dial_timeout : ℕ
  pub read_timeout : ℕ
  pub write_timeout : ℕ

abbrev second : ℕ
second = 10 ^ 9

unfoldable pub default_client_options : {Tls : Type 0} → ClientOptions Tls
default_client_options = record {
  password = [];
  tls_config = none;
  dial_timeout = 5 * second;
  read_timeout = 10 * second;
  write_timeout = 10 * second;
}

abbrev pub map_answer : {A B : Type 0} → (A → B) → Error ⊎ A → Error ⊎ B
map_answer f (inl e) = inl e
map_answer f (inr a) = inr (f a)

abbrev pub bind_answer : {A B : Type 0} → (A → Error ⊎ B) → Error ⊎ A → Error ⊎ B
bind_answer f (inl e) = inl e
bind_answer f (inr a) = f a

abbrev pub say : List Str → List Arg
say [] = []
say (w ∷ ws) = Arg.word w ∷ say ws

-- `for i := 0; i+1 < len(result); i += 2 { m[result[i]] = result[i+1] }`: a last text that has no
-- partner is dropped.
unfoldable pub insert_pairs : List Str → Map Str → Map Str
unfolding insert
insert_pairs (k ∷ v ∷ rest) m = insert_pairs rest (insert k v m)
insert_pairs (k ∷ []) m = m
insert_pairs [] m = m

abbrev port_of : Str → Str → Option ℤ → Error ⊎ (Str × ℤ)
port_of host text none = inl (Error.bad_master_port text)
port_of host text (some port) = inr (host, port)

unfoldable pub master_address : List Str → Error ⊎ (Str × ℤ)
unfolding atoi
master_address (host ∷ port ∷ rest) = port_of host port (atoi port)
master_address (host ∷ []) = inl Error.bad_master_reply
master_address [] = inl Error.bad_master_reply

-- The first element of a list, if it is a text.
unfoldable pub role_reply : Reply → Error ⊎ Str
role_reply (Reply.array (Replies.more (Reply.text role) rest)) = inr role
role_reply (Reply.array (Replies.more (Reply.number n) rest)) = inl Error.bad_role_reply
role_reply (Reply.array (Replies.more Reply.absent rest)) = inl Error.bad_role_reply
role_reply (Reply.array (Replies.more (Reply.array a) rest)) = inl Error.bad_role_reply
role_reply (Reply.array Replies.none) = inl Error.bad_role_reply
role_reply (Reply.text s) = inl Error.bad_role_reply
role_reply (Reply.number n) = inl Error.bad_role_reply
role_reply Reply.absent = inl Error.bad_role_reply

-- A section of INFO, or all of it.
abbrev pub sections : Str → List Str
sections [] = []
sections (c ∷ s) = (c ∷ s) ∷ []

abbrev pub node_words : Str → List Arg
node_words [] = []
node_words (c ∷ s) = Arg.word (c ∷ s) ∷ []

module _ {Tls : Type 0} (opts : ClientOptions Tls) where
  -- `newGoRedisClient`: what a connection is opened with.
  unfoldable pub new_go_redis_client : Str → Options Tls
  new_go_redis_client addr = record {
    addr = addr;
    password = opts.password;
    dial_timeout = opts.dial_timeout;
    read_timeout = opts.read_timeout;
    write_timeout = opts.write_timeout;
    tls_config = opts.tls_config;
  }
