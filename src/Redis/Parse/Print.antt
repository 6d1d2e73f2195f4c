-- ===== src/Redis/Parse/Print.antt =====
-- What a server knows of a node, the line of CLUSTER NODES that it writes for it in the format that
-- internal/redis/client.go states, and what the operator is to see of it.
use kubernetes_redis_operato.Prelude.{ℕ, ◌==◌, ◌<◌, ◌^◌, List, [], ◌∷◌, ◌++◌, map, if◌then◌else◌}
use kubernetes_redis_operato.Prelude.Int.{pos}
use kubernetes_redis_operato.Go.Text.{Str}
use kubernetes_redis_operato.Go.Text.Pieces.{Avoids}
use kubernetes_redis_operato.Go.Text.Words.{IsWord, Solid}
use kubernetes_redis_operato.Go.Number.{itoa}
use kubernetes_redis_operato.Redis.Node.{ClusterNode, SlotRange}

-- A first and a last slot.
abbrev pub Range : Type 0
Range = ℕ × ℕ

-- `bus` is what follows the address behind "@", `moving` what stands between brackets for a slot
-- that is on the move. A node has one flag at least.
pub record Entry : Type 0 where
  pub id : Str
  pub addr : Str
  pub bus : Str
  pub flag : Str
  pub more_flags : List Str
  pub master : Str
  pub ping : ℕ
  pub pong : ℕ
  pub epoch : ℕ
  pub link : Str
  pub ranges : List Range
  pub moving : List Str

-- Texts that follow each other, each behind a separator.
abbrev pub behind : ℕ → List Str → Str
behind sep [] = []
behind sep (s ∷ ss) = sep ∷ (s ++ behind sep ss)

-- A range of one slot is written as that slot.
abbrev pub print_range : Range → Str
print_range (a, b) = if a == b then itoa a else itoa a ++ b'-' ∷ itoa b

abbrev pub print_moving : Str → Str
print_moving s = b'[' ∷ s

abbrev pub print_slots : List Range → List Str → List Str
print_slots [] moving = map print_moving moving
print_slots (r ∷ rs) moving = print_range r ∷ print_slots rs moving

-- The fields behind the first one.
abbrev pub print_fields : Entry → List Str
print_fields e =
    (e.addr ++ b'@' ∷ e.bus)
    ∷ (e.flag ++ behind b',' e.more_flags)
    ∷ e.master
    ∷ itoa e.ping
    ∷ itoa e.pong
    ∷ itoa e.epoch
    ∷ e.link
    ∷ print_slots e.ranges e.moving

unfoldable pub print_entry : Entry → Str
print_entry e = e.id ++ behind b' ' (print_fields e)

-- Each line ends with a newline.
unfoldable pub print_nodes : List Entry → Str
unfolding print_entry
print_nodes [] = []
print_nodes (e ∷ es) = print_entry e ++ b'\n' ∷ print_nodes es

abbrev pub seen_range : Range → SlotRange
seen_range (a, b) = record { start = pos a; end = pos b }

-- What the operator keeps of an entry: no bus, and no slot that is on the move.
abbrev pub seen : Entry → ClusterNode
seen e = record {
  node_id = e.id;
  addr = e.addr;
  flags = e.flag ∷ e.more_flags;
  master_id = e.master;
  ping_sent = pos e.ping;
  pong_recv = pos e.pong;
  config_epoch = pos e.epoch;
  link_state = e.link;
  slots = map seen_range e.ranges;
}

abbrev pub All : {A : Type 0} → (A → Type 0) → List A → Type 0
All P [] = Unit {0}
All P (x ∷ xs) = P x × All P xs

abbrev pub IsFlag : Str → Type 0
IsFlag s = IsWord s × Avoids b',' s

abbrev pub IsRange : Range → Type 0
IsRange (a, b) = (a < 2 ^ 63) × (b < 2 ^ 63)

-- The texts have no blanks, those that the format sets apart are not empty and do not hold their
-- separator, and the numbers fit into an int64.
pub record IsListed (e : Entry) : Type 0 where
  pub id : IsWord e.id
  pub addr : Solid e.addr × Avoids b'@' e.addr
  pub bus : Solid e.bus
  pub flag : IsFlag e.flag
  pub more_flags : All IsFlag e.more_flags
  pub master : IsWord e.master
  pub ping : e.ping < 2 ^ 63
  pub pong : e.pong < 2 ^ 63
  pub epoch : e.epoch < 2 ^ 63
  pub link : IsWord e.link
  pub ranges : All IsRange e.ranges
  pub moving : All Solid e.moving
