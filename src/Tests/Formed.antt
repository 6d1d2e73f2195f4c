-- ===== src/Tests/Formed.antt =====
-- A master with all slots beside one that has none.
use mathlib.Core.List.Perm
use kubernetes_redis_operato.Prelude.{◌/◌, ◌≡◌, refl, arith, List, [], ◌∷◌, length}
use kubernetes_redis_operato.Prelude.Int.{pos}
use kubernetes_redis_operato.Go.Text.{codes}
use kubernetes_redis_operato.Redis.Effect.{Command, emit}
use kubernetes_redis_operato.Redis.Node.{ClusterNode, slot_total, total_hash_slots}
use kubernetes_redis_operato.Redis.Client.{RedisClient}
use kubernetes_redis_operato.Redis.Rebalance.{slot_counts, rebalance_slots}
use kubernetes_redis_operato.Redis.Rebalance.Shares.{Shares, rebalance_slots-Shares}
use kubernetes_redis_operato.Tests.World.{accepts, addr_a, addr_b, member, world, runtime}

abbrev lopsided : List ClusterNode
lopsided =
    member addr_a (codes "na") addr_a (pos 0) (pos 16383)
    ∷ record (member addr_a (codes "nb") addr_b (pos 0) (pos 0)) { slots = [] }
    ∷ []

abbrev leaning : RedisClient
leaning = record world { cluster_nodes = accepts lopsided }

rebalance_slots-Shares_example :
    (es : List Command) × ((rebalance_slots leaning runtime 5 (addr_a ∷ addr_b ∷ []) []).1
      ≡ emit es (Command.cluster_nodes addr_a ∷ []))
    × Shares leaning (total_hash_slots / length (addr_a ∷ addr_b ∷ [])) (slot_counts [] lopsided) es
unfolding slot_total
rebalance_slots-Shares_example =
    rebalance_slots-Shares leaning runtime 5 addr_a (addr_b ∷ []) lopsided [] refl
      (λ h m. Perm.refl m)
      ((λ m. (omega arith, omega arith)), ((λ m. (omega arith, omega arith)), tt))
