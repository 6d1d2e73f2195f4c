-- ===== src/Redis/Remote/Methods.antt =====
-- The methods of the type `client` of internal/redis/client.go. Each opens a connection, and closes it
-- when it returns; the log that it reads has the call of the method itself in front.
use kubernetes_redis_operato.Prelude.{ℕ, ◌*◌, ◌^◌, Bool, List, [], ◌∷◌, ◌⊎◌, if◌then◌else◌}
use kubernetes_redis_operato.Prelude.Int.{ℤ, pos}
use kubernetes_redis_operato.Go.Text.{Str, codes}
use kubernetes_redis_operato.Go.Map.{Map, lookup, or_zero}
use kubernetes_redis_operato.Go.Number.{itoa_ℤ}
use kubernetes_redis_operato.Go.Word.{int64}
use kubernetes_redis_operato.Redis.Effect.{Error, Log}
use kubernetes_redis_operato.Redis.Node.{ClusterInfo, ClusterNode}
use kubernetes_redis_operato.Redis.Parse.{
  parse_info_output, parse_cluster_info, parse_cluster_nodes,
}
use kubernetes_redis_operato.Redis.GoRedis.{Arg, Request, GoRedis}
use kubernetes_redis_operato.Redis.Remote.{
  ClientOptions, map_answer, bind_answer, say, insert_pairs, master_address, role_reply, sections,
  node_words, new_go_redis_client,
}

module _ {Tls : Type 0} (g : GoRedis Tls) (opts : ClientOptions Tls) where
  unfoldable pub ping : Str → Log → Error ⊎ (Unit {0})
  unfolding new_go_redis_client
  ping addr = g.err (new_go_redis_client opts addr) Request.ping

  unfoldable pub info : Str → Str → Log → Error ⊎ (Map Str)
  unfolding new_go_redis_client parse_info_output
  info addr section l =
      map_answer parse_info_output
        (g.text (new_go_redis_client opts addr) (Request.info (sections section)) l)

  unfoldable pub config_set : Str → Str → Str → Log → Error ⊎ (Unit {0})
  unfolding new_go_redis_client
  config_set addr param value =
      g.err (new_go_redis_client opts addr) (Request.config_set param value)

  -- A parameter that the server does not know has no text.
  unfoldable pub config_get : Str → Str → Log → Error ⊎ Str
  unfolding new_go_redis_client lookup
  config_get addr param l =
      map_answer (λ m. or_zero [] (lookup param m))
        (g.pairs (new_go_redis_client opts addr) (Request.config_get param) l)

  unfoldable pub save : Str → Log → Error ⊎ (Unit {0})
  unfolding new_go_redis_client
  save addr = g.err (new_go_redis_client opts addr) Request.save

  unfoldable pub cluster_info : Str → Log → Error ⊎ ClusterInfo
  unfolding new_go_redis_client parse_cluster_info
  cluster_info addr l =
      map_answer parse_cluster_info (g.text (new_go_redis_client opts addr) Request.cluster_info l)

  unfoldable pub cluster_nodes : Str → Log → Error ⊎ (List ClusterNode)
  unfolding new_go_redis_client parse_cluster_nodes
  cluster_nodes addr l =
      map_answer parse_cluster_nodes
        (g.text (new_go_redis_client opts addr) Request.cluster_nodes l)

  unfoldable pub cluster_meet : Str → Str → ℤ → Log → Error ⊎ (Unit {0})
  unfolding new_go_redis_client itoa_ℤ
  cluster_meet addr ip port =
      g.err (new_go_redis_client opts addr) (Request.cluster_meet ip (itoa_ℤ port))

  unfoldable pub cluster_add_slots : Str → List ℤ → Log → Error ⊎ (Unit {0})
  unfolding new_go_redis_client
  cluster_add_slots addr slots =
      g.err (new_go_redis_client opts addr) (Request.cluster_add_slots slots)

  unfoldable pub cluster_del_slots : Str → List ℤ → Log → Error ⊎ (Unit {0})
  unfolding new_go_redis_client
  cluster_del_slots addr slots =
      g.err (new_go_redis_client opts addr) (Request.cluster_del_slots slots)

  unfoldable pub cluster_replicate : Str → Str → Log → Error ⊎ (Unit {0})
  unfolding new_go_redis_client
  cluster_replicate addr master_id =
      g.err (new_go_redis_client opts addr) (Request.cluster_replicate master_id)

  unfoldable pub cluster_failover : Str → Log → Error ⊎ (Unit {0})
  unfolding new_go_redis_client
  cluster_failover addr = g.err (new_go_redis_client opts addr) Request.cluster_failover

  unfoldable pub cluster_forget : Str → Str → Log → Error ⊎ (Unit {0})
  unfolding new_go_redis_client
  cluster_forget addr id = g.err (new_go_redis_client opts addr) (Request.cluster_forget id)

  unfoldable pub cluster_reset : Str → Bool → Log → Error ⊎ (Unit {0})
  unfolding new_go_redis_client
  cluster_reset addr hard = g.err (new_go_redis_client opts addr) (
      Request.words (
        say (codes "CLUSTER" ∷ codes "RESET" ∷ (if hard then codes "HARD" else codes "SOFT") ∷ [])))

  unfoldable pub cluster_set_slot : Str → ℤ → Str → Str → Log → Error ⊎ (Unit {0})
  unfolding new_go_redis_client
  cluster_set_slot addr slot state id = g.err (new_go_redis_client opts addr) (
      Request.words (
        Arg.word (codes "CLUSTER")
        ∷ Arg.word (codes "SETSLOT")
        ∷ Arg.number slot
        ∷ Arg.word state
        ∷ node_words id))

  unfoldable pub cluster_get_keys_in_slot : Str → ℤ → ℕ → Log → Error ⊎ (List Str)
  unfolding new_go_redis_client
  cluster_get_keys_in_slot addr slot count =
      g.texts (new_go_redis_client opts addr) (Request.cluster_get_keys_in_slot slot count)

  unfoldable pub cluster_count_keys_in_slot : Str → ℤ → Log → Error ⊎ ℤ
  unfolding new_go_redis_client
  cluster_count_keys_in_slot addr slot =
      g.number (new_go_redis_client opts addr) (Request.cluster_count_keys_in_slot slot)

  -- The time limit is turned from milliseconds into nanoseconds.
  unfoldable pub migrate : Str → Str → ℤ → Str → ℕ → ℕ → Log → Error ⊎ (Unit {0})
  unfolding new_go_redis_client itoa_ℤ int64
  migrate addr ip port key db timeout =
      g.err (new_go_redis_client opts addr)
        (Request.migrate ip (itoa_ℤ port) key db (int64 (pos (timeout * 10 ^ 6))))

  unfoldable pub sentinel_master : Str → Str → Log → Error ⊎ (Map Str)
  unfolding new_go_redis_client insert_pairs
  sentinel_master addr master l =
      map_answer (λ texts. insert_pairs texts [])
        (g.texts (new_go_redis_client opts addr)
          (Request.words (say (codes "SENTINEL" ∷ codes "MASTER" ∷ master ∷ []))) l)

  unfoldable pub sentinel_get_master_addr : Str → Str → Log → Error ⊎ (Str × ℤ)
  unfolding new_go_redis_client master_address
  sentinel_get_master_addr addr master l = bind_answer master_address (
      g.texts (new_go_redis_client opts addr)
        (Request.words (say (codes "SENTINEL" ∷ codes "GET-MASTER-ADDR-BY-NAME" ∷ master ∷ []))) l)

  unfoldable pub sentinel_failover : Str → Str → Log → Error ⊎ (Unit {0})
  unfolding new_go_redis_client
  sentinel_failover addr master =
      g.err (new_go_redis_client opts addr)
        (Request.words (say (codes "SENTINEL" ∷ codes "FAILOVER" ∷ master ∷ [])))

  unfoldable pub sentinel_reset : Str → Str → Log → Error ⊎ (Unit {0})
  unfolding new_go_redis_client
  sentinel_reset addr glob =
      g.err (new_go_redis_client opts addr)
        (Request.words (say (codes "SENTINEL" ∷ codes "RESET" ∷ glob ∷ [])))

  unfoldable pub replica_of : Str → Str → ℤ → Log → Error ⊎ (Unit {0})
  unfolding new_go_redis_client itoa_ℤ
  replica_of addr host port =
      g.err (new_go_redis_client opts addr)
        (Request.words (say (codes "REPLICAOF" ∷ host ∷ itoa_ℤ port ∷ [])))

  unfoldable pub role : Str → Log → Error ⊎ Str
  unfolding new_go_redis_client role_reply
  role addr l =
      bind_answer role_reply
        (g.reply (new_go_redis_client opts addr) (Request.words (say (codes "ROLE" ∷ []))) l)
