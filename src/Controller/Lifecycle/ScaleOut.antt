-- ===== src/Controller/Lifecycle/ScaleOut.antt =====
-- What `reconcileScaleOut` does where the servers list no node by the name of its pod.
use kubernetes_redis_operato.Prelude.{
  ℕ, ◌≡◌, refl, Bool, true, false, inl, inr, ◌⊎◌, List, [], ◌∷◌, Bool-cases, if◌then◌else◌,
}
use kubernetes_redis_operato.Prelude.Int.{ℤ, pos, ltb_ℤ}
use kubernetes_redis_operato.Go.Text.{Str}
use kubernetes_redis_operato.Redis.Effect.{
  Error, Halt, Result, Command, Log, M, for_each, attempt, lift, fail, answer_cases, ◌>>=◌,
}
use kubernetes_redis_operato.Redis.Loops.{
  All, All-map, Issues, Issues-call, Issues-attempt, Issues-ignoring, Issues-for_each, Issues->>=,
}
use kubernetes_redis_operato.Redis.Addr.{split_addr}
use kubernetes_redis_operato.Redis.Calls
use kubernetes_redis_operato.Redis.Node.{node_id_for_addr}
use kubernetes_redis_operato.Redis.Client.{RedisClient, Runtime}
use kubernetes_redis_operato.Redis.Members.{add_master, add_replica}
use kubernetes_redis_operato.Redis.Rebalance.{rebalance_slots}
use kubernetes_redis_operato.Api.Objects.{RedisCluster}
use kubernetes_redis_operato.Resources.Labels.{component_master}
use kubernetes_redis_operato.Controller.Names.{
  cluster_master_addr, cluster_replica_addr, addrs, all_master_addrs, between, map_addr,
  replica_index,
}
use kubernetes_redis_operato.Controller.Kube.{Kube, list_pods}
use kubernetes_redis_operato.Controller.Pods.{enough, all_master_pods_ready}
use kubernetes_redis_operato.Controller.Lifecycle.{
  Outcome, either, scaling_later, attach_replicas_of, reconcile_scale_out,
}
use kubernetes_redis_operato.Controller.Lifecycle.Lookups.{
  IsReading, Unlisted, node_id_for_addr-eq-[], rebalance_slots-Reads, All-map_addr,
}

-- Pods or nodes are asked for, or a node meets the cluster.
pub data IsMeeting : Command → Type 0 where
  asks_pods : (component : Str) → IsMeeting (Command.list_pods component)
  asks_nodes : (addr : Str) → IsMeeting (Command.cluster_nodes addr)
  meets : (addr ip : Str) (port : ℤ) → IsMeeting (Command.cluster_meet addr ip port)

IsReading-IsMeeting : (e : Command) → IsReading e → IsMeeting e
IsReading-IsMeeting _ (IsReading.reads addr) = IsMeeting.asks_nodes addr

addrs-cases :
    (f : ℤ → Str) (n : ℤ) (l : Log)
    → ((is : List ℤ) × (addrs f n l ≡ (Result.ok (map_addr f is), l)))
      ⊎ (addrs f n l ≡ (Result.halt Halt.panic, l))
unfolding addrs
addrs-cases f n l = elim (Bool-cases (ltb_ℤ n (pos 0))) [
  | inl e ↦ inr (rw e refl)
  | inr e ↦ inl (between (pos 0) n, rw e refl)
]

-- Behind a list of addresses, or the panic.
addrs-then-Issues :
    {A : Type 0} (P : Command → Type 0) (f : ℤ → Str) (n : ℤ) (next : List Str → M A)
    → ((is : List ℤ) → Issues P (next (map_addr f is)))
    → Issues P (addrs f n >>= next)
addrs-then-Issues P f n next h l = elim (addrs-cases f n l) [
  | inl (is, e) ↦ rw e (h is l)
  | inr e ↦ rw e ([], refl, tt)
]

module _ (c : RedisClient) where
  add_master-Issues : (existing new : Str) → Issues IsMeeting (add_master c existing new)
  unfolding add_master
  add_master-Issues existing new =
      Issues->>= IsMeeting (lift (split_addr new)) _ (λ l. ([], refl, tt))
        (λ (ip, port).
          Issues-call IsMeeting (Command.cluster_meet existing ip port) c.cluster_meet
            (IsMeeting.meets existing ip port))

  -- Without an identifier of the master nothing is issued.
  by_id :
      (replica master id : Str)
      → id ≡ []
      → Issues IsMeeting (elim id as (λ _. M (Unit {0})) [
        | [] ↦ fail (Error.master_not_found master)
        | a ∷ s ↦ Calls.cluster_replicate c replica (a ∷ s)
      ])
  by_id replica master [] e l = ([], refl, tt)
  by_id replica master (a ∷ s) e l = absurd (cc)

  -- The replica meets the cluster, and the look-up of its master fails.
  add_replica-Issues :
      (replica master : Str) → Unlisted c master → Issues IsMeeting (add_replica c replica master)
  unfolding add_replica
  add_replica-Issues replica master h =
      Issues->>= IsMeeting (lift (split_addr replica)) _ (λ l. ([], refl, tt))
        (λ (ip, port).
          Issues->>= IsMeeting (Calls.cluster_meet c master ip port) _
            (Issues-call IsMeeting (Command.cluster_meet master ip port) c.cluster_meet
              (IsMeeting.meets master ip port))
            (λ _ l. elim (answer_cases (c.cluster_nodes (Command.cluster_nodes master ∷ l))) [
              | inl (x, p) ↦
                  rw p (Command.cluster_nodes master ∷ [], refl, (IsMeeting.asks_nodes master, tt))
              | inr (nodes, p) ↦
                  let (es, q, all) =
                    by_id replica master (node_id_for_addr nodes master)
                      (node_id_for_addr-eq-[] nodes master (h _ nodes p))
                      (Command.cluster_nodes master ∷ l) in
                  rw p (Command.cluster_nodes master ∷ es, q, (IsMeeting.asks_nodes master, all))
            ]))

  rebalance_slots-Issues :
      (rt : Runtime) (fuel : ℕ) (masters : List Str)
      → All (Unlisted c) masters
      → Issues IsMeeting (rebalance_slots c rt fuel masters)
  unfolding rebalance_slots
  rebalance_slots-Issues rt fuel [] h l = ([], refl, tt)
  rebalance_slots-Issues rt fuel (first ∷ rest) h l =
      let (es, q, all, _) = rebalance_slots-Reads c rt fuel first rest h l in
      (es, q, All-map es IsReading-IsMeeting all)

if-Issues :
    {A : Type 0} (P : Command → Type 0) (b : Bool) (x y : M A)
    → Issues P x
    → Issues P y
    → Issues P (if b then x else y)
if-Issues P true x y h g = h
if-Issues P false x y h g = g

either-Issues :
    {A : Type 0} (P : Command → Type 0) (r : Error ⊎ A) (failed next : M Outcome)
    → Issues P failed
    → Issues P next
    → Issues P (either r failed next)
either-Issues P (inl e) failed next h g = h
either-Issues P (inr a) failed next h g = g

module _ (rt : Runtime) (c : RedisClient) (k : Kube) (fuel : ℕ) (rc : RedisCluster)
    (no_master : (i : ℤ) → Unlisted c (cluster_master_addr rc i)) where
  ready-Issues : Issues IsMeeting (all_master_pods_ready k rc)
  unfolding all_master_pods_ready enough
  ready-Issues =
      Issues->>= IsMeeting (attempt (list_pods k component_master)) _
        (Issues-attempt IsMeeting (list_pods k component_master) (
          Issues-call IsMeeting (Command.list_pods component_master) k.list_pods
            (IsMeeting.asks_pods component_master)))
        (λ r l. ([], refl, tt))

  attach-Issues : (i : ℤ) → Issues IsMeeting (attach_replicas_of rt c k fuel rc i)
  attach-Issues i = Issues-for_each IsMeeting _ (between (pos 0) rc.spec.replicas_per_master) (λ j.
      Issues-ignoring IsMeeting _ (
        add_replica-Issues c (cluster_replica_addr rc (replica_index rc.spec i j))
          (cluster_master_addr rc i) (no_master i)))

  -- Where the servers list no master by an address that the controller builds, as they do that
  -- announce their IP, scaling out only asks for pods and nodes and has nodes meet, whatever the
  -- answers: no slot moves to a new master, and no replica is attached.
  pub reconcile_scale_out_unlisted :
      (current : ℤ) → Issues IsMeeting (reconcile_scale_out rt c k fuel rc current)
  unfolding reconcile_scale_out all_master_addrs
  reconcile_scale_out_unlisted current =
      let P = IsMeeting in
      Issues->>= P (all_master_pods_ready k rc) _ ready-Issues (λ ready.
        if-Issues P ready _ (scaling_later 15)
          (Issues->>= P (attempt (for_each meet (between current rc.spec.masters))) _
            (Issues-attempt P (for_each meet (between current rc.spec.masters)) (
              Issues-for_each P meet (between current rc.spec.masters)
                (λ i. add_master-Issues c _ (cluster_master_addr rc i))))
            (λ met.
              either-Issues P met (scaling_later 30) _ (λ l. ([], refl, tt))
                (addrs-then-Issues P (cluster_master_addr rc) rc.spec.masters _ (λ is.
                  Issues->>= P
                    (attempt (rebalance_slots c rt fuel (map_addr (cluster_master_addr rc) is))) _
                    (Issues-attempt P
                      (rebalance_slots c rt fuel (map_addr (cluster_master_addr rc) is))
                      (rebalance_slots-Issues c rt fuel _
                        (All-map_addr (Unlisted c) (cluster_master_addr rc) is no_master)))
                    (λ moved.
                      either-Issues P moved (scaling_later 30) _ (λ l. ([], refl, tt))
                        (Issues->>= P
                          (for_each (attach_replicas_of rt c k fuel rc)
                            (between current rc.spec.masters))
                          _
                          (Issues-for_each P (attach_replicas_of rt c k fuel rc)
                            (between current rc.spec.masters) attach-Issues)
                          (λ _ l. ([], refl, tt))))))))
          (λ l. ([], refl, tt)))
    where
      meet : ℤ → M (Unit {0})
      meet i = add_master c (cluster_master_addr rc (pos 0)) (cluster_master_addr rc i)
