-- ===== src/Controller/Names/Split.antt =====
-- The managers read back the addresses that the controller builds.
use kubernetes_redis_operato.Prelude.{◌≡◌, refl, [], ◌∷◌, ◌++◌, none, some, inr}
use kubernetes_redis_operato.Prelude.Int.{ℤ, pos}
use kubernetes_redis_operato.Go.Text.{Str, cut_last, codes}
use kubernetes_redis_operato.Go.Number.{itoa}
use kubernetes_redis_operato.Redis.Addr.{split_addr}
use kubernetes_redis_operato.Api.Objects.{RedisCluster}
use kubernetes_redis_operato.Resources.Labels.{redis_port}
use kubernetes_redis_operato.Controller.Names.{
  cluster_master_addr, cluster_master_host, cluster_replica_addr, cluster_replica_host,
}

-- A colon behind which no colon follows is the last one.
cut_last_end :
    (host port : Str)
    → cut_last b':' port ≡ none
    → cut_last b':' (host ++ b':' ∷ port) ≡ some (host, port)
unfolding cut_last
cut_last_end [] port h = rw h
cut_last_end (c ∷ host) port h = rw (cut_last_end host port h)

port_text : itoa redis_port ≡ codes "6379"
unfolding itoa
port_text = refl

split_addr_port :
    (host : Str) → split_addr (host ++ b':' ∷ codes "6379") ≡ inr (host, pos redis_port)
unfolding split_addr
split_addr_port host = rw (split_addr, cut_last_end host (codes "6379") refl)

-- The address of a master and that of a replica are split into the host name and the port of Redis,
-- whatever the names of the object and of its namespace hold.
pub split_addr-cluster_addr :
    (rc : RedisCluster) (i : ℤ)
    → (split_addr (cluster_master_addr rc i) ≡ inr (cluster_master_host rc i, pos redis_port))
      × (split_addr (cluster_replica_addr rc i) ≡ inr (cluster_replica_host rc i, pos redis_port))
unfolding cluster_master_addr cluster_replica_addr
split_addr-cluster_addr rc i = (
  rw port_text (split_addr_port (cluster_master_host rc i)),
  rw port_text (split_addr_port (cluster_replica_host rc i)),
)
