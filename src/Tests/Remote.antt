-- ===== src/Tests/Remote.antt =====
-- A server that answers by texts, and the theorems on the client at it.
use kubernetes_redis_operato.Prelude.{◌≡◌, ◌↔◌, refl, arith, List, [], ◌∷◌, inr}
use kubernetes_redis_operato.Prelude.Int.{pos}
use kubernetes_redis_operato.Go.Text.{Str, codes, is_space, str_eq}
use kubernetes_redis_operato.Go.Number.{itoa, atoi}
use kubernetes_redis_operato.Redis.Effect.{Result, Command}
use kubernetes_redis_operato.Redis.Parse.Print.{Entry, IsListed, print_nodes, seen}
use kubernetes_redis_operato.Redis.Parse.Info.{Told, IsTold, told_pairs, print_info, info_seen}
use kubernetes_redis_operato.Redis.Members.{state_of, get_cluster_state}
use kubernetes_redis_operato.Redis.Calls
use kubernetes_redis_operato.Redis.GoRedis.{GoRedis, Request, Reply}
use kubernetes_redis_operato.Redis.Remote.{default_client_options}
use kubernetes_redis_operato.Redis.Remote.Dispatch.{new_client}
use kubernetes_redis_operato.Redis.Remote.Seen.{get_cluster_state-new_client}
use kubernetes_redis_operato.Redis.Remote.Master.{Holds, sentinel_get_master_addr-Holds}

abbrev first_entry : Entry
first_entry = record {
  id = codes "na";
  addr = codes "10.0.0.1:6379";
  bus = codes "16379";
  flag = codes "myself";
  more_flags = codes "master" ∷ [];
  master = codes "-";
  ping = 0;
  pong = 17;
  epoch = 1;
  link = codes "connected";
  ranges = (0, 5460) ∷ (7, 7) ∷ [];
  moving = codes "93-<-nb]" ∷ [];
}

abbrev entries : List Entry
entries = first_entry ∷ []

abbrev told : Told
told = record {
  state = codes "ok";
  slots_assigned = 16384;
  slots_ok = 16384;
  slots_pfail = 0;
  slots_fail = 0;
  known_nodes = 1;
  cluster_size = 1;
  more = (codes "cluster_current_epoch", codes "6") ∷ [];
}

-- Each text is written out, as a server would send it.
nodes_text :
    print_nodes entries
    ≡ codes "na 10.0.0.1:6379@16379 myself,master - 0 17 1 connected 0-5460 7 [93-<-nb]\n"
unfolding print_nodes itoa
nodes_text = refl

entries-IsListed : IsListed first_entry
unfolding is_space
entries-IsListed = ground arith

told-IsTold : IsTold told
unfolding is_space str_eq
told-IsTold = ground arith

-- The answers in text; other requests are granted.
abbrev texts_answer : Request → Str
texts_answer Request.cluster_info = print_info (told_pairs told)
texts_answer Request.cluster_nodes = print_nodes entries
texts_answer _ = []

abbrev go_redis : GoRedis (Unit {0})
go_redis = record {
  err = λ o q l. inr tt;
  text = λ o q l. inr (texts_answer q);
  texts = λ o q l. inr (codes "10.0.0.1" ∷ codes "6379" ∷ []);
  number = λ o q l. inr (pos 0);
  pairs = λ o q l. inr [];
  reply = λ o q l. inr Reply.absent;
}

abbrev addr : Str
addr = codes "10.0.0.1:6379"

get_cluster_state-new_client_example :
    get_cluster_state (new_client go_redis default_client_options) addr [] ≡ (
      Result.ok (state_of (info_seen told) (seen first_entry ∷ [])),
      Command.cluster_nodes addr ∷ Command.cluster_info addr ∷ [],
    )
get_cluster_state-new_client_example =
    get_cluster_state-new_client go_redis default_client_options addr told entries [] told-IsTold
      (entries-IsListed, tt) refl refl

sentinel_get_master_addr-Holds_example :
    ((Calls.sentinel_get_master_addr
        (new_client go_redis default_client_options)
        addr
        (codes "mymaster")
        []).0
      ≡ Result.ok (codes "10.0.0.1", pos 6379))
    ↔ Holds (codes "10.0.0.1" ∷ codes "6379" ∷ []) (codes "10.0.0.1") (pos 6379)
sentinel_get_master_addr-Holds_example =
    sentinel_get_master_addr-Holds go_redis default_client_options addr (codes "mymaster") []
      (codes "10.0.0.1" ∷ codes "6379" ∷ []) (codes "10.0.0.1") (pos 6379) refl

-- So the port is read.
master_found :
    (Calls.sentinel_get_master_addr
      (new_client go_redis default_client_options)
      addr
      (codes "mymaster")
      []).0
    ≡ Result.ok (codes "10.0.0.1", pos 6379)
unfolding atoi
master_found =
    (sentinel_get_master_addr-Holds go_redis default_client_options addr (codes "mymaster") []
        (codes "10.0.0.1" ∷ codes "6379" ∷ []) (codes "10.0.0.1") (pos 6379) refl).1
      (codes "6379", [], refl, refl)
