-- ===== src/Tests/World.antt =====
-- A small world for the tests: two masters, the first of which holds two keys of a slot.
use kubernetes_redis_operato.Prelude.{
  ℕ, ◌+◌, ◌≡◌, refl, arith, Bool, false, true, List, [], ◌∷◌, length, ◌⊎◌, inr,
}
use kubernetes_redis_operato.Prelude.Int.{ℤ, pos}
use kubernetes_redis_operato.Go.Text.{Str, codes, str_eq, str_eq_iff, contains}
use kubernetes_redis_operato.Redis.Effect.{Error, Command, Log}
use kubernetes_redis_operato.Redis.Node.{ClusterInfo, ClusterNode}
use kubernetes_redis_operato.Redis.Client.{RedisClient, Runtime}
use kubernetes_redis_operato.Redis.Loops.{All}
use kubernetes_redis_operato.Redis.Wait.Ends.{IsClock}
use kubernetes_redis_operato.Redis.Migrate.Keys.{Holds, without}

abbrev pub addr_a : Str
addr_a = codes "a:7000"

abbrev pub addr_b : Str
addr_b = codes "b:7001"

abbrev pub accepts : {A : Type 0} → A → Log → Error ⊎ A
accepts a l = inr a

-- Each key that is sent leaves the first node.
unfoldable pub keys_left : Log → List Str
unfolding without
keys_left [] = codes "k1" ∷ codes "k2" ∷ []
keys_left (Command.migrate a b p k d t ∷ l) = without k (keys_left l)
keys_left (e ∷ l) = keys_left l

abbrev pub flags_for : Bool → List Str
flags_for true = codes "myself" ∷ codes "master" ∷ []
flags_for false = codes "master" ∷ []

abbrev pub member : Str → Str → Str → ℤ → ℤ → ClusterNode
member viewer id addr lo hi = record {
  node_id = id;
  addr = addr;
  flags = flags_for (str_eq viewer addr);
  master_id = codes "-";
  ping_sent = pos 0;
  pong_recv = pos 0;
  config_epoch = pos 1;
  link_state = codes "connected";
  slots = record { start = lo; end = hi } ∷ [];
}

abbrev pub list_for : Str → List ClusterNode
list_for viewer =
    member viewer (codes "na") addr_a (pos 0) (pos 8191)
    ∷ member viewer (codes "nb") addr_b (pos 8192) (pos 16383)
    ∷ []

abbrev pub nodes_answer : Log → Error ⊎ (List ClusterNode)
nodes_answer (Command.cluster_nodes viewer ∷ l) = inr (list_for viewer)
nodes_answer _ = inr []

abbrev pub healthy : ClusterInfo
healthy = record {
  state = codes "ok";
  slots_assigned = pos 16384;
  slots_ok = pos 16384;
  slots_pfail = pos 0;
  slots_fail = pos 0;
  known_nodes = pos 2;
  cluster_size = pos 2;
}

abbrev pub world : RedisClient
world = record {
  ping = accepts tt;
  info = accepts [];
  config_set = accepts tt;
  config_get = accepts [];
  save = accepts tt;
  cluster_info = accepts healthy;
  cluster_nodes = nodes_answer;
  cluster_meet = accepts tt;
  cluster_add_slots = accepts tt;
  cluster_del_slots = accepts tt;
  cluster_replicate = accepts tt;
  cluster_failover = accepts tt;
  cluster_forget = accepts tt;
  cluster_reset = accepts tt;
  cluster_set_slot = accepts tt;
  cluster_get_keys_in_slot = λ l. inr (keys_left l);
  cluster_count_keys_in_slot = λ l. inr (pos (length (keys_left l)));
  migrate = accepts tt;
  sentinel_master = accepts ((codes "status", codes "ok") ∷ []);
  sentinel_get_master_addr = accepts (codes "10.0.0.1", pos 6379);
  sentinel_failover = accepts tt;
  sentinel_reset = accepts tt;
  replica_of = accepts tt;
  role = accepts (codes "master");
}

abbrev spent : Command → ℕ
spent (Command.wait d) = d
spent _ = 0

unfoldable pub elapsed : Log → ℕ
elapsed [] = 0
elapsed (e ∷ l) = spent e + elapsed l

-- Only waiting takes time, and maps are visited in the order of insertion.
abbrev pub runtime : Runtime
runtime = record { now = elapsed; select = accepts tt; visit = λ l m. m; visit_keys = λ l ks. ks }

pub runtime-IsClock : IsClock runtime
unfolding elapsed
runtime-IsClock = record { forward = λ e l. omega arith; fires = λ d l h. omega arith }

contains-behind :
    (k : Str) (ks rest : List Str)
    → All (λ x. contains ks x ≡ true) rest
    → All (λ x. contains (k ∷ ks) x ≡ true) rest
unfolding contains
contains-behind k ks [] h = tt
contains-behind k ks (x ∷ rest) h = (ground (arith, h.0), contains-behind k ks rest h.1)

contains-all : (ks : List Str) → All (λ x. contains ks x ≡ true) ks
unfolding contains
contains-all [] = tt
contains-all (k ∷ ks) = (ground (arith, str_eq_iff k k), contains-behind k ks ks (contains-all ks))

pub world-Holds : (ip : Str) (port slot : ℤ) → Holds world addr_a ip port slot keys_left
unfolding keys_left
world-Holds ip port slot = record {
  asking = λ l. refl;
  listing = λ l ks h. (let e : keys_left l ≡ ks = cc in rw e (contains-all ks));
  sending = λ l k h. refl;
}
