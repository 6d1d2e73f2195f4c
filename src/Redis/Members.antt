-- ===== src/Redis/Members.antt =====
-- `AddMaster`, `RemoveMaster`, `AddReplica`, `RemoveReplica`, `GetClusterState` and
-- `VerifySlotCoverage` of internal/redis/cluster.go.
use kubernetes_redis_operato.Prelude.{Bool, false, true, List, [], ◌∷◌, if◌then◌else◌}
use kubernetes_redis_operato.Prelude.Int.{ℤ, pos, ltb_ℤ}
use kubernetes_redis_operato.Go.Text.{Str, str_eq}
use kubernetes_redis_operato.Redis.Effect.{
  Error, M, pure, fail, wrapping, ignoring, lift, for_each, ◌>>=◌, ◌>>◌,
}
use kubernetes_redis_operato.Redis.Node.{
  ClusterInfo, ClusterNode, node_id_for_addr, total_hash_slots,
}
use kubernetes_redis_operato.Redis.Addr.{split_addr}
use kubernetes_redis_operato.Redis.Client.{RedisClient}
use kubernetes_redis_operato.Redis.Calls

-- A snapshot of the topology.
pub record ClusterState : Type 0 where
  pub state : Str
  pub slots_assigned : ℤ
  pub slots_ok : ℤ
  pub slots_pfail : ℤ
  pub slots_fail : ℤ
  pub known_nodes : ℤ
  pub size : ℤ
  pub nodes : List ClusterNode

abbrev pub state_of : ClusterInfo → List ClusterNode → ClusterState
state_of i all = record {
  state = i.state;
  slots_assigned = i.slots_assigned;
  slots_ok = i.slots_ok;
  slots_pfail = i.slots_pfail;
  slots_fail = i.slots_fail;
  known_nodes = i.known_nodes;
  size = i.cluster_size;
  nodes = all;
}

module _ (c : RedisClient) where
  unfoldable pub add_master : Str → Str → M (Unit {0})
  unfolding split_addr
  add_master existing new = do
    (ip, port) ← lift (split_addr new)
    Calls.cluster_meet c existing ip port

  -- Every listed node but the removed one is told to forget it.
  abbrev pub forget : Str → Str → ClusterNode → M (Unit {0})
  forget removed id n =
      if str_eq n.addr removed then pure tt else ignoring (Calls.cluster_forget c n.addr id)

  -- The steps behind the look-up of the identifier; an empty one stands for none.
  abbrev pub reset_and_forget : (Str → Error) → Str → List ClusterNode → Str → M (Unit {0})
  reset_and_forget missing removed nodes [] = fail (missing removed)
  reset_and_forget missing removed nodes (a ∷ s) = do
    wrapping (Error.reset_failed removed) (Calls.cluster_reset c removed false)
    for_each (forget removed (a ∷ s)) nodes

  -- The body that `RemoveMaster` and `RemoveReplica` share but for the error of an unknown node.
  unfoldable pub remove : (Str → Error) → Str → Str → M (Unit {0})
  unfolding node_id_for_addr for_each str_eq
  remove missing cluster removed = do
    nodes ← Calls.cluster_nodes c cluster
    reset_and_forget missing removed nodes (node_id_for_addr nodes removed)

  unfoldable pub remove_master : Str → Str → M (Unit {0})
  unfolding remove
  remove_master = remove Error.node_not_found

  unfoldable pub remove_replica : Str → Str → M (Unit {0})
  unfolding remove
  remove_replica = remove Error.replica_not_found

  unfoldable pub add_replica : Str → Str → M (Unit {0})
  unfolding split_addr node_id_for_addr
  add_replica replica master = do
    (ip, port) ← lift (split_addr replica)
    Calls.cluster_meet c master ip port
    nodes ← Calls.cluster_nodes c master
    let id = node_id_for_addr nodes master
    elim id [
      | [] ↦ fail (Error.master_not_found master)
      | a ∷ s ↦ Calls.cluster_replicate c replica (a ∷ s)
    ]

  unfoldable pub get_cluster_state : Str → M ClusterState
  get_cluster_state addr = do
    i ← Calls.cluster_info c addr
    nodes ← Calls.cluster_nodes c addr
    pure (state_of i nodes)

  unfoldable pub verify_slot_coverage : Str → M Bool
  verify_slot_coverage addr = do
    i ← Calls.cluster_info c addr
    let full : ℤ = pos total_hash_slots
    pure (
        if ltb_ℤ i.slots_assigned full
        then false
        else if ltb_ℤ full i.slots_assigned
        then false
        else true)
