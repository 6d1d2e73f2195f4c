-- ===== src/Redis/Parse.antt =====
-- The parsers of internal/redis/client.go.
pub mod Print
pub mod Info
pub mod RoundTrip
use kubernetes_redis_operato.Prelude.{◌||◌, Option, none, some, List, [], ◌∷◌, if◌then◌else◌}
use kubernetes_redis_operato.Prelude.Int.{ℤ, pos}
use kubernetes_redis_operato.Go.Text.{
  Str, codes, str_eq, trim_space, has_prefix, split, cut, fields,
}
use kubernetes_redis_operato.Go.Number.{atoi}
use kubernetes_redis_operato.Go.Map.{Map, insert, lookup, or_zero}
use kubernetes_redis_operato.Redis.Node.{ClusterInfo, ClusterNode, SlotRange}

-- The body of the loop of `parseInfoOutput`, for a trimmed line.
info_line : Str → Map Str → Map Str
unfolding cut insert trim_space
info_line line m =
    if str_eq line [] || has_prefix line b'#'
    then m
    else elim (cut b':' line) [ none ↦ m | some (k, v) ↦ insert (trim_space k) (trim_space v) m ]

info_lines : List Str → Map Str → Map Str
unfolding info_line
info_lines [] m = m
info_lines (line ∷ lines) m = info_lines lines (info_line (trim_space line) m)

unfoldable pub parse_info_output : Str → Map Str
unfolding info_lines split
parse_info_output raw = info_lines (split b'\n' raw) []

-- `if v, err := strconv.Atoi(s); err == nil { x = v }` on a zero `x`
abbrev number_or_zero : Option ℤ → ℤ
number_or_zero none = pos 0
number_or_zero (some v) = v

abbrev info_number : Map Str → Str → ℤ
info_number m key = number_or_zero (atoi (or_zero [] (lookup key m)))

-- The fields of the structure, from the map.
abbrev cluster_info_of : Map Str → ClusterInfo
cluster_info_of m = record {
  state = or_zero [] (lookup (codes "cluster_state") m);
  slots_assigned = info_number m (codes "cluster_slots_assigned");
  slots_ok = info_number m (codes "cluster_slots_ok");
  slots_pfail = info_number m (codes "cluster_slots_pfail");
  slots_fail = info_number m (codes "cluster_slots_fail");
  known_nodes = info_number m (codes "cluster_known_nodes");
  cluster_size = info_number m (codes "cluster_size");
}

unfoldable pub parse_cluster_info : Str → ClusterInfo
unfolding parse_info_output lookup atoi
parse_cluster_info raw = cluster_info_of (parse_info_output raw)

abbrev pub slot_bounds : Option ℤ → Option ℤ → Option SlotRange
slot_bounds (some start) (some end) = some (record { start = start; end = end })
slot_bounds _ _ = none

abbrev pub slot_range_of : Str → Option (Str × Str) → Option SlotRange
slot_range_of s none = slot_bounds (atoi s) (atoi s)
slot_range_of s (some (a, b)) = slot_bounds (atoi a) (atoi b)

unfoldable pub parse_slot_range : Str → Option SlotRange
unfolding cut atoi
parse_slot_range s = slot_range_of s (cut b'-' s)

abbrev keep_range : Option SlotRange → List SlotRange → List SlotRange
keep_range none rs = rs
keep_range (some r) rs = r ∷ rs

-- What is no range, such as a slot that is on the move, is left out.
unfoldable pub parse_slots : List Str → List SlotRange
unfolding parse_slot_range
parse_slots [] = []
parse_slots (s ∷ ss) = keep_range (parse_slot_range s) (parse_slots ss)

-- The address without the port of the cluster bus.
abbrev pub strip_bus_port : Str → Option (Str × Str) → Str
strip_bus_port full none = full
strip_bus_port full (some (a, _)) = a

-- A line with fewer than eight fields is no node.
unfoldable pub node_of_fields : List Str → Option ClusterNode
unfolding split cut atoi parse_slots
node_of_fields (id ∷ addr ∷ flags ∷ master ∷ ping ∷ pong ∷ epoch ∷ link ∷ slots) = some (record {
  node_id = id;
  addr = strip_bus_port addr (cut b'@' addr);
  flags = split b',' flags;
  master_id = master;
  ping_sent = number_or_zero (atoi ping);
  pong_recv = number_or_zero (atoi pong);
  config_epoch = number_or_zero (atoi epoch);
  link_state = link;
  slots = parse_slots slots;
})
node_of_fields _ = none

abbrev keep_node : Option ClusterNode → List ClusterNode → List ClusterNode
keep_node none ns = ns
keep_node (some n) ns = n ∷ ns

unfoldable pub parse_lines : List Str → List ClusterNode
unfolding str_eq trim_space fields node_of_fields
parse_lines [] = []
parse_lines (line ∷ lines) =
    let rest = parse_lines lines in
    let text = trim_space line in
    if str_eq text [] then rest else keep_node (node_of_fields (fields text)) rest

unfoldable pub parse_cluster_nodes : Str → List ClusterNode
unfolding split parse_lines
parse_cluster_nodes raw = parse_lines (split b'\n' raw)
