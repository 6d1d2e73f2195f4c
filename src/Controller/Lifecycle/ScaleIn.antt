-- ===== src/Controller/Lifecycle/ScaleIn.antt =====
-- What `reconcileScaleIn` does where the servers list no node by the name of its pod: `RebalanceSlots`,
-- `RemoveReplica` and `RemoveMaster` look the addresses up that the controller builds.
use kubernetes_redis_operato.Prelude.{List}
use kubernetes_redis_operato.Controller.Kube.{Kube}
