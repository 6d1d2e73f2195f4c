-- ===== src/Controller/Cluster/Deletion.antt =====
-- What the deletion of a cluster, or of servers under sentinels, does about their claims.
use kubernetes_redis_operato.Prelude.{Option, none, some, true, ◌≡◌, ◌∷◌}
use kubernetes_redis_operato.Go.Text.{codes}
use kubernetes_redis_operato.Api.Objects.{Meta, RedisSentinel}
use kubernetes_redis_operato.Redis.Effect.{Command, Log}
use kubernetes_redis_operato.Redis.Loops.{ignoring-call}
use kubernetes_redis_operato.Redis.Client.{RedisClient}
use kubernetes_redis_operato.Resources.Labels.{component_redis, pod_labels}
use kubernetes_redis_operato.Controller.Kube.{Kube}
use kubernetes_redis_operato.Controller.Sentinel.{handle_sentinel_deletion, sentinel_addr}
use kubernetes_redis_operato.Controller.Reconcile.Claims.{Cleans, unless_kept-Cleans}

-- After the sentinels were asked to forget all masters, if there is a client.
abbrev pub reset_first : Option RedisClient → RedisSentinel → Log → Log
reset_first none rs l = l
reset_first (some c) rs l = Command.sentinel_reset (sentinel_addr rs) (codes "*") ∷ l

-- For servers under sentinels with the finalizer, the same, if there is a client after a request to
-- the sentinels to forget all masters, whatever the answer to that; the claims are those with the
-- labels of the servers.
pub handle_sentinel_deletion-Cleans :
    (k : Kube) (client : Option RedisClient) (m : Meta) (rs : RedisSentinel) (l : Log)
    → m.finalizer ≡ true
    → Cleans k rs.spec.storage
        (pod_labels rs.name component_redis)
        (k.list_claims
          (Command.list_claims (pod_labels rs.name component_redis) ∷ reset_first client rs l))
        (reset_first client rs l)
        (handle_sentinel_deletion k client m rs l)
unfolding handle_sentinel_deletion
handle_sentinel_deletion-Cleans k none m rs l h =
    rw h (unless_kept-Cleans k (pod_labels rs.name component_redis) rs.spec.storage l)
handle_sentinel_deletion-Cleans k (some c) m rs l h =
    rw (h, ignoring-call (Command.sentinel_reset (sentinel_addr rs) (codes "*")) c.sentinel_reset l)
      (unless_kept-Cleans k (pod_labels rs.name component_redis) rs.spec.storage
        (Command.sentinel_reset (sentinel_addr rs) (codes "*") ∷ l))
