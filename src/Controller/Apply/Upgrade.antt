-- ===== src/Controller/Apply/Upgrade.antt =====
-- What becomes of the stateful sets and deployments of a custom resource that is changed.
use kubernetes_redis_operato.Prelude.{◌≡◌, ◌++◌, refl, ap, false, List}
use kubernetes_redis_operato.Go.Text.{Str, codes}
use kubernetes_redis_operato.Api.Objects.{RedisInstance, RedisSentinel, RedisCluster}
use kubernetes_redis_operato.Resources.Labels.{
  pod_labels, headless_service_name, component_redis, component_sentinel, component_master,
  component_replica,
}
use kubernetes_redis_operato.Resources.Object.{ClaimTemplate, Workload}
use kubernetes_redis_operato.Resources.Workload.{
  build_redis_stateful_set, build_redis_deployment, build_sentinel_redis_stateful_set,
  build_sentinel_deployment, build_cluster_master_stateful_set, build_cluster_replica_stateful_set,
}
use kubernetes_redis_operato.Controller.Apply.{Stored, mutate_workload, created}

-- The fields that an update does not write, but for the claims.
abbrev Agree : Workload → Workload → Type 0
Agree a b = (a.service_name ≡ b.service_name) × (a.match_labels ≡ b.match_labels)

abbrev Placed : Workload → Workload → Type 0
Placed a b = (a.name ≡ b.name) × (a.namespace ≡ b.namespace)

abbrev pub with_claims : List ClaimTemplate → Stored → Stored
with_claims claims s = record s { spec = record s.spec { claims = claims } }

-- Updating what was created for one version to a later version gives what a creation for the later
-- version would give, but for the claims, which stay those of the first one. The pods that are asked for
-- are those that are selected.
abbrev pub Upgrades : {A : Type 0} → (A → Workload) → A → A → Type 0
Upgrades build old new =
    (hash hash' : Str) (blank : Stored)
    → (mutate_workload false (build new) hash' (created (build old) hash blank)
        ≡ with_claims (build old).claims (created (build new) hash' blank))
      × ((mutate_workload false (build new) hash' (created (build old) hash blank)).spec.selector
          ≡ (mutate_workload false (build new) hash'
              (created (build old) hash blank)).spec.template.labels)

upgrade :
    {A : Type 0} (build : A → Workload) (old new : A)
    → Placed (build old) (build new)
    → Agree (build old) (build new)
    → Upgrades build old new
unfolding mutate_workload created
upgrade build old new (name, namespace) (service, labels) hash hash' blank = (
  λ i. record {
    name = name i;
    namespace = namespace i;
    labels = (build new).labels;
    spec = record {
      replicas = (build new).replicas;
      service_name = service i;
      selector = labels i;
      template = record {
        labels = (build new).match_labels;
        config_hash = hash';
        pod = (build new).pod;
      };
      claims = (build old).claims;
    };
  },
  labels,
)

-- A change of a custom resource keeps its name and its namespace. Then each stateful set and each
-- deployment of the three kinds is updated to what a creation for the changed resource would give, the
-- claims excepted, and selects the pods that it asks for.
pub mutate_workload-Upgrades :
    (r r' : RedisInstance) (rs rs' : RedisSentinel) (rc rc' : RedisCluster)
    → (r.name ≡ r'.name) × (r.namespace ≡ r'.namespace)
    → (rs.name ≡ rs'.name) × (rs.namespace ≡ rs'.namespace)
    → (rc.name ≡ rc'.name) × (rc.namespace ≡ rc'.namespace)
    → Upgrades build_redis_stateful_set r r'
      × Upgrades build_redis_deployment r r'
      × Upgrades build_sentinel_redis_stateful_set rs rs'
      × Upgrades build_sentinel_deployment rs rs'
      × Upgrades build_cluster_master_stateful_set rc rc'
      × Upgrades build_cluster_replica_stateful_set rc rc'
unfolding build_redis_stateful_set build_redis_deployment build_sentinel_redis_stateful_set
    build_sentinel_deployment build_cluster_master_stateful_set build_cluster_replica_stateful_set
mutate_workload-Upgrades r r' rs rs' rc rc' (n, ns) (m, ms) (c, cs) = (
  upgrade build_redis_stateful_set r r' (n, ns)
      (
        ap (λ x. headless_service_name x component_redis) n,
        ap (λ x. pod_labels x component_redis) n,
      ),
  upgrade build_redis_deployment r r' (n, ns) (refl, ap (λ x. pod_labels x component_redis) n),
  upgrade build_sentinel_redis_stateful_set rs rs' (m, ms)
      (
        ap (λ x. headless_service_name x component_redis) m,
        ap (λ x. pod_labels x component_redis) m,
      ),
  upgrade build_sentinel_deployment rs rs' (ap (λ x. x ++ codes "-sentinel") m, ms)
      (refl, ap (λ x. pod_labels x component_sentinel) m),
  upgrade build_cluster_master_stateful_set rc rc' (ap (λ x. x ++ codes "-masters") c, cs)
      (
        ap (λ x. headless_service_name x component_master) c,
        ap (λ x. pod_labels x component_master) c,
      ),
  upgrade build_cluster_replica_stateful_set rc rc' (ap (λ x. x ++ codes "-replicas") c, cs)
      (
        ap (λ x. headless_service_name x component_replica) c,
        ap (λ x. pod_labels x component_replica) c,
      ),
)
