-- ===== src/Controller/Status.antt =====
-- `updateClusterStatus` of internal/controller/rediscluster_controller.go, for a reconciler that has
-- a `ClusterManager`: what it writes to the status. The metrics are in Controller/Metered, the
-- condition Ready in Controller/Conditions; the answer to the update of the status is left out.
pub mod Phases
use kubernetes_redis_operato.Prelude.{
  ◌&&◌, ◌||◌, Bool, false, true, List, [], ◌∷◌, ◌++◌, ◌⊎◌, inl, inr, if◌then◌else◌,
}
use kubernetes_redis_operato.Prelude.Int.{ℤ, pos, ltb_ℤ}
use kubernetes_redis_operato.Go.Text.{Str, codes, str_eq}
use kubernetes_redis_operato.Go.Number.{itoa_ℤ}
use kubernetes_redis_operato.Go.Word.{int32}
use kubernetes_redis_operato.Api.Types.{RedisClusterSpec, Phase}
use kubernetes_redis_operato.Redis.Effect.{Error, M, pure, attempt, ◌>>=◌}
use kubernetes_redis_operato.Redis.Node.{ClusterNode, SlotRange}
use kubernetes_redis_operato.Redis.Client.{RedisClient}
use kubernetes_redis_operato.Redis.Members.{ClusterState, get_cluster_state}
use kubernetes_redis_operato.Api.Objects.{RedisCluster}
use kubernetes_redis_operato.Resources.Labels.{component_master, component_replica}
use kubernetes_redis_operato.Controller.Names.{cluster_master_addr, total_replicas}
use kubernetes_redis_operato.Controller.Kube.{Kube, Pod, list_pods}
use kubernetes_redis_operato.Controller.Pods.{count_ready_pods}

-- `Health` is always "ok".
pub record RedisNodeStatus : Type 0 where
  pub node_id : Str
  pub ip : Str
  pub role : Str
  pub slots : Str

pub record RedisClusterStatus : Type 0 where
  pub phase : Phase
  pub ready_masters : ℤ
  pub ready_replicas : ℤ
  pub cluster_state : Str
  pub assigned_slots : ℤ
  pub nodes : List RedisNodeStatus
  -- the condition Ready
  pub ready : Bool

-- `len(n.Flags) > 0 && n.Flags[0] == "master"`
unfoldable pub role_of : List Str → Str
unfolding str_eq
role_of [] = codes "replica"
role_of (x ∷ xs) = if str_eq x (codes "master") then codes "master" else codes "replica"

abbrev last_end : SlotRange → List SlotRange → ℤ
last_end r [] = r.end
last_end r (s ∷ ss) = last_end s ss

unfoldable pub slot_text : List SlotRange → Str
unfolding itoa_ℤ
slot_text [] = []
slot_text (r ∷ rs) = itoa_ℤ r.start ++ b'-' ∷ itoa_ℤ (last_end r rs)

unfoldable pub node_statuses : List ClusterNode → List RedisNodeStatus
unfolding role_of slot_text
node_statuses [] = []
node_statuses (n ∷ nodes) =
    record { node_id = n.node_id; ip = n.addr; role = role_of n.flags; slots = slot_text n.slots }
    ∷ node_statuses nodes

-- `a >= b`
abbrev at_least : ℤ → ℤ → Bool
at_least a b = if ltb_ℤ a b then false else true

unfoldable pub all_ready : RedisClusterSpec → ℤ → ℤ → Bool
unfolding total_replicas
all_ready s masters replicas =
    if ltb_ℤ (pos 0) s.replicas_per_master
    then at_least masters s.masters && at_least replicas (total_replicas s)
    else at_least masters s.masters

abbrev is_unset : Phase → Bool
is_unset Phase.unset = true
is_unset _ = false

abbrev is_initializing : Phase → Bool
is_initializing Phase.initializing = true
is_initializing _ = false

unfoldable pub next_phase : Phase → Bool → Str → Phase
unfolding str_eq
next_phase phase ready state =
    if is_unset phase || (is_initializing phase && ready)
    then (if ready && str_eq state (codes "ok") then Phase.ready else Phase.initializing)
    else phase

-- The parts of the status that come from `CLUSTER INFO` and `CLUSTER NODES`.
abbrev pub observed : Error ⊎ ClusterState → Str × ℤ × List RedisNodeStatus
observed (inl e) = (codes "unknown", pos 0, [])
observed (inr s) = (s.state, int32 s.slots_assigned, node_statuses s.nodes)

-- The error of a list is dropped, and the list is empty.
abbrev pub listed : Error ⊎ (List Pod) → List Pod
listed (inl e) = []
listed (inr pods) = pods

abbrev pub status_of : RedisCluster → ℤ → ℤ → Str × ℤ × List RedisNodeStatus → RedisClusterStatus
status_of rc masters replicas (state, slots, nodes) = record {
  phase = next_phase rc.phase (all_ready rc.spec masters replicas) state;
  ready_masters = masters;
  ready_replicas = replicas;
  cluster_state = state;
  assigned_slots = slots;
  nodes = nodes;
  ready = all_ready rc.spec masters replicas;
}

unfoldable pub update_cluster_status : RedisClient → Kube → RedisCluster → M RedisClusterStatus
unfolding count_ready_pods get_cluster_state cluster_master_addr int32 node_statuses next_phase
    all_ready
update_cluster_status c k rc = do
  masters ← attempt (list_pods k component_master)
  replicas ← attempt (list_pods k component_replica)
  s ← attempt (get_cluster_state c (cluster_master_addr rc (pos 0)))
  pure (
      status_of rc (count_ready_pods (listed masters)) (count_ready_pods (listed replicas))
        (observed s))
