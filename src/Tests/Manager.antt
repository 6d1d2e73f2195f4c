-- ===== src/Tests/Manager.antt =====
-- The managers of internal/redis at concrete data.
use kubernetes_redis_operato.Prelude.{
  ◌<◌, suc, ◌*◌, ◌≤◌, ◌≡◌, ◌≢◌, ◌⊎◌, refl, arith, List, [], ◌∷◌, length, inl, inr,
}
use kubernetes_redis_operato.Prelude.Int.{pos}
use kubernetes_redis_operato.Go.Text.{Str, codes}
use kubernetes_redis_operato.Redis.Effect.{Error, Result, Halt, Command, Log, emit}
use kubernetes_redis_operato.Redis.Loops.{FailsWith}
use kubernetes_redis_operato.Redis.Node.{is_master, ClusterInfo, total_hash_slots, master_node_ids}
use kubernetes_redis_operato.Redis.Client.{RedisClient}
use kubernetes_redis_operato.Redis.Slots.{assign_slots_evenly, range_from}
use kubernetes_redis_operato.Redis.Slots.Partition.{assigned, receivers, assign_slots_evenly_covers}
use kubernetes_redis_operato.Redis.Migrate.{
  migrate_slot, migrate_keys, own_id, open_slot, move_keys, commit_slot,
}
use kubernetes_redis_operato.Redis.Addr.{split_addr}
use kubernetes_redis_operato.Redis.Migrate.Keys.{without, migrate_keys_ends}
use kubernetes_redis_operato.Redis.Migrate.Protocol.{RolledBack, migrate_slot_rolls_back}
use kubernetes_redis_operato.Redis.Migrate.Success.{IsMigration, migrate_slot_ok}
use kubernetes_redis_operato.Redis.Form.{attach_replicas, form_cluster}
use kubernetes_redis_operato.Redis.Form.Covers.{form_cluster_covers}
use kubernetes_redis_operato.Redis.Form.Replicas.{
  round_robin, Attaches, attach_replicas_lem, attach_replicas_refused,
}
use kubernetes_redis_operato.Redis.Wait.{poll, second, wait_for_cluster_ready}
use kubernetes_redis_operato.Redis.Wait.Ends.{wait_for_cluster_ready_lem}
use kubernetes_redis_operato.Redis.Sentinel.{wait_for_sentinel_quorum}
use kubernetes_redis_operato.Redis.Sentinel.Quorum.{wait_for_sentinel_quorum_short}
use kubernetes_redis_operato.Tests.World.{
  addr_a, addr_b, elapsed, healthy, keys_left, list_for, world, runtime, runtime-IsClock,
  world-Holds,
}

abbrev pub three : List Str
three = addr_a ∷ addr_b ∷ codes "c:7002" ∷ []

assign_slots_evenly_covers_example :
    (es : List Command) × ((assign_slots_evenly world three []).1 ≡ emit es [])
    × (assigned es ≡ range_from 0 (length (assigned es)))
    × (length (assigned es) ≤ total_hash_slots)
    × ((assign_slots_evenly world three []).0 ≡ Result.ok tt
        → (length (assigned es) ≡ total_hash_slots) × (receivers es ≡ three))
assign_slots_evenly_covers_example = assign_slots_evenly_covers world three []

-- The same, with an answer that counts three nodes.
abbrev pub crew : RedisClient
crew = record world { cluster_info = λ l. inr (record healthy { known_nodes = pos 3 }) }

three_form : (form_cluster crew runtime 1 three [] (pos 0) []).0 ≡ Result.ok tt
unfolding form_cluster poll elapsed
three_form = refl

form_cluster_covers_example :
    (es : List Command) × ((form_cluster crew runtime 1 three [] (pos 0) []).1 ≡ emit es [])
    × (assigned es ≡ range_from 0 (length (assigned es)))
    × (length (assigned es) ≤ total_hash_slots)
    × ((form_cluster crew runtime 1 three [] (pos 0) []).0 ≡ Result.ok tt
        → (length (assigned es) ≡ total_hash_slots) × (receivers es ≡ three))
form_cluster_covers_example = form_cluster_covers runtime crew 1 three [] (pos 0) []

-- Two keys move: one round with the keys, and one that finds none.
slot_moves : (migrate_slot world 2 addr_a addr_b (pos 5) []).0 ≡ Result.ok tt
unfolding migrate_slot split_addr own_id open_slot move_keys commit_slot keys_left without
slot_moves = refl

keys_move : (migrate_keys world 3 addr_a (codes "b") (pos 7001) (pos 5) []).0 ≡ Result.ok tt
unfolding migrate_keys keys_left
keys_move = refl

migrate_slot_ok_example :
    IsMigration world addr_a addr_b (pos 5) [] (migrate_slot world 2 addr_a addr_b (pos 5) []).1
migrate_slot_ok_example = migrate_slot_ok world addr_a addr_b (pos 5) 2 [] slot_moves

abbrev stuck : RedisClient
stuck = record world { migrate = λ l. inl (Error.external 7) }

-- The keys do not move, and the run fails with that error.
slot_stays :
    (migrate_slot stuck 2 addr_a addr_b (pos 5) []).0
    ≡ Result.err (Error.keys_failed (pos 5) (Error.migrate_failed (codes "k1") (Error.external 7)))
unfolding migrate_slot split_addr own_id open_slot move_keys commit_slot keys_left without
slot_stays = refl

migrate_slot_rolls_back_example :
    FailsWith
      (RolledBack stuck addr_a addr_b (pos 5))
      (migrate_slot stuck 2 addr_a addr_b (pos 5) [])
migrate_slot_rolls_back_example = migrate_slot_rolls_back stuck addr_a addr_b (pos 5) 2 []

two_keys : length (keys_left []) < 3
unfolding keys_left without
two_keys = omega arith

migrate_keys_ends_example :
    (migrate_keys world 3 addr_a (codes "b") (pos 7001) (pos 5) []).0 ≢ Result.halt Halt.out_of_fuel
migrate_keys_ends_example =
    migrate_keys_ends world addr_a (codes "b") (pos 7001) (pos 5) keys_left
      (world-Holds (codes "b") (pos 7001) (pos 5)) 3 [] two_keys Halt.out_of_fuel

abbrev pair_replicas : List Str
pair_replicas = codes "r0" ∷ codes "r1" ∷ codes "r2" ∷ []

attach_replicas_lem_example :
    ((length (master_node_ids (list_for addr_a)) ≢ 2)
      × (attach_replicas world addr_a 2 pair_replicas [] ≡ (
        Result.err (Error.wrong_master_count 2 (length (master_node_ids (list_for addr_a)))),
        Command.cluster_nodes addr_a ∷ [],
      )))
    ⊎ ((length (master_node_ids (list_for addr_a)) ≡ 2)
        × Attaches world
            (round_robin (master_node_ids (list_for addr_a)) 0 pair_replicas)
            (Command.cluster_nodes addr_a ∷ [])
            (attach_replicas world addr_a 2 pair_replicas []))
attach_replicas_lem_example =
    attach_replicas_lem world addr_a 2 pair_replicas (list_for addr_a) [] refl (omega arith)

-- A cluster of one master and one replica, freshly met: both are listed as masters.
attach_replicas_refused_example :
    attach_replicas world addr_a 1 (addr_b ∷ []) []
    ≡ (Result.err (Error.wrong_master_count 1 2), Command.cluster_nodes addr_a ∷ [])
unfolding is_master
attach_replicas_refused_example =
    attach_replicas_refused world addr_a 1 (addr_b ∷ []) (list_for addr_a) [] refl
      (refl, (refl, tt)) refl (omega arith)

wait_for_cluster_ready_lem_example :
    ((h : Halt)
      → (wait_for_cluster_ready runtime world (suc 30) addr_a (60 * second) []).0 ≢ Result.halt h)
    × ((wait_for_cluster_ready runtime world (suc 30) addr_a (60 * second) []).0 ≡ Result.ok tt
        → (before : Log) × (i : ClusterInfo) × ((wait_for_cluster_ready runtime world
              (suc 30)
              addr_a
              (60 * second)
              []).1
            ≡ Command.cluster_info addr_a ∷ before)
          × (world.cluster_info (Command.cluster_info addr_a ∷ before) ≡ inr i)
          × (i.state ≡ codes "ok"))
wait_for_cluster_ready_lem_example =
    wait_for_cluster_ready_lem runtime world 30 (60 * second) addr_a [] runtime-IsClock
      (omega arith)

wait_for_sentinel_quorum_short_example :
    (wait_for_sentinel_quorum runtime world 40 three (codes "m") (pos 4) (60 * second) []).0
    ≢ Result.ok tt
wait_for_sentinel_quorum_short_example =
    wait_for_sentinel_quorum_short runtime world 40 (60 * second) 4 three (codes "m") []
      (omega arith)
