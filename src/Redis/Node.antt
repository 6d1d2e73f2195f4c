-- ===== src/Redis/Node.antt =====
-- The data of internal/redis/client.go and the helpers on nodes of internal/redis/cluster.go.
use kubernetes_redis_operato.Prelude.{
  ℕ, zero, suc, ◌-◌, Bool, List, [], ◌∷◌, ◌++◌, length, if◌then◌else◌,
}
use kubernetes_redis_operato.Prelude.Int.{ℤ, pos, ◌+ℤ◌, ◌-ℤ◌, ltb_ℤ}
use kubernetes_redis_operato.Go.Text.{Str, codes, str_eq, contains}
use kubernetes_redis_operato.Go.Word.{int64}

-- The fields that the operator reads; the two message counters are never set.
pub record ClusterInfo : Type 0 where
  pub state : Str
  pub slots_assigned : ℤ
  pub slots_ok : ℤ
  pub slots_pfail : ℤ
  pub slots_fail : ℤ
  pub known_nodes : ℤ
  pub cluster_size : ℤ

-- An inclusive range of hash slots.
pub record SlotRange : Type 0 where
  pub start : ℤ
  pub end : ℤ

pub record ClusterNode : Type 0 where
  pub node_id : Str
  pub addr : Str
  pub flags : List Str
  pub master_id : Str
  pub ping_sent : ℤ
  pub pong_recv : ℤ
  pub config_epoch : ℤ
  pub link_state : Str
  pub slots : List SlotRange

abbrev pub total_hash_slots : ℕ
total_hash_slots = 16384

unfoldable pub is_master : ClusterNode → Bool
unfolding contains
is_master n = contains n.flags (codes "master")

unfoldable pub master_node_ids : List ClusterNode → List Str
unfolding is_master
master_node_ids [] = []
master_node_ids (n ∷ nodes) =
    let rest = master_node_ids nodes in if is_master n then n.node_id ∷ rest else rest

unfoldable pub self_node_id : List ClusterNode → Str
unfolding contains
self_node_id [] = []
self_node_id (n ∷ nodes) =
    if contains n.flags (codes "myself") then n.node_id else self_node_id nodes

unfoldable pub node_id_for_addr : List ClusterNode → Str → Str
unfolding str_eq
node_id_for_addr [] addr = []
node_id_for_addr (n ∷ nodes) addr =
    if str_eq n.addr addr then n.node_id else node_id_for_addr nodes addr

-- The slots from `s` to `end`, at most `room` of them.
unfoldable pub range_slots : ℕ → ℤ → ℤ → List ℤ
unfolding ◌+ℤ◌
range_slots zero s end = []
range_slots (suc room) s end =
    let rest = range_slots room (s +ℤ pos 1) end in if ltb_ℤ end s then [] else s ∷ rest

-- The ranges of one node. The source leaves this loop once `count` slots are found; with no room
-- left the later ranges give nothing.
unfoldable pub ranges_slots : ℕ → List SlotRange → List ℤ
unfolding range_slots
ranges_slots room [] = []
ranges_slots room (r ∷ rs) =
    let found = range_slots room r.start r.end in found ++ ranges_slots (room - length found) rs

unfoldable pub collect_slots : List ClusterNode → Str → ℕ → List ℤ
unfolding ranges_slots str_eq
collect_slots [] id count = []
collect_slots (n ∷ nodes) id count =
    let found = ranges_slots count n.slots in
    if str_eq n.node_id id
    then found ++ collect_slots nodes id (count - length found)
    else collect_slots nodes id count

-- `total += sr.End - sr.Start + 1` over the ranges of a node
unfoldable pub slot_total : ℤ → List SlotRange → ℤ
unfolding ◌+ℤ◌ ◌-ℤ◌ int64
slot_total total [] = total
slot_total total (r ∷ rs) = slot_total (int64 (total +ℤ (r.end -ℤ r.start +ℤ pos 1))) rs
