-- ===== src/Controller/Cluster/Stuck.antt =====
-- Runs on a cluster whose servers answer that it is formed.
use kubernetes_redis_operato.Prelude.{◌≡◌}
use kubernetes_redis_operato.Go.Map.{Map}
use kubernetes_redis_operato.Api.Types.{Phase}
use kubernetes_redis_operato.Redis.Effect.{Command}
use kubernetes_redis_operato.Controller.Kube.{Kube, update_status}

-- Questions, settings of running servers, and the given phase in the status.
abbrev pub Watches : Phase → Command → Type 0
Watches p (Command.cluster_info addr) = Unit
Watches p (Command.cluster_nodes addr) = Unit
Watches p (Command.list_pods component) = Unit
Watches p (Command.config_set addr key value) = Unit
Watches p (Command.update_status q) = q ≡ p
Watches p _ = ⊥
