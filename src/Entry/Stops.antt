-- ===== src/Entry/Stops.antt =====
-- How the process of cmd/main.go ends.
use kubernetes_redis_operato.Prelude.{
  ◌≡◌, Bool, true, false, List, [], ◌∷◌, ◌++◌, Option, none, some, ◌⊎◌, if◌then◌else◌,
}
use kubernetes_redis_operato.Go.Text.{Str, codes}
use kubernetes_redis_operato.Redis.Remote.{ClientOptions, default_client_options}
use kubernetes_redis_operato.Redis.Loops.{All}
use kubernetes_redis_operato.Metrics.Recorder.{Kind}
use kubernetes_redis_operato.Entry.{Flags, Owned, Group, Request, End, Run}

-- A request, and how the process ends if it fails.
abbrev pub Step : Type 0 → Type 0
Step Tls = Request Tls × End

module _ {Tls : Type 0} where
  abbrev adds : Group → Step Tls
  adds g = (Request.add_to_scheme g, End.panicked g)

  -- A controller with its event recorder, and the sorts of objects that it owns.
  abbrev controls : Kind → Str → Option (ClientOptions Tls) → List Owned → Step Tls
  controls kind name client owned = (
    Request.new_controller
        (record {
          sort = kind;
          event_recorder = name;
          redis_client = client;
          cluster_manager = client;
        })
        owned,
    End.no_controller kind,
  )

  abbrev admits : Kind → Step Tls
  admits kind = (Request.new_webhook kind, End.no_webhook kind)

  abbrev webhooks : Bool → List (Step Tls)
  webhooks true = admits Kind.redis ∷ admits Kind.redis_sentinel ∷ admits Kind.redis_cluster ∷ []
  webhooks false = []

  -- Every step of a process in which nothing fails.
  abbrev pub script : Flags → List (Step Tls)
  script flags =
      (adds Group.client_go
        ∷ adds Group.redis_v1alpha1
        ∷ adds Group.monitoring_v1
        ∷ adds Group.apps_v1
        ∷ adds Group.core_v1
        ∷ adds Group.policy_v1
        ∷ (
          Request.new_manager (record {
            metrics_bind_address = flags.metrics_addr;
            webhook_server_port = flags.webhook_port;
            health_probe_bind_address = flags.probe_addr;
            leader_election = flags.enable_leader_election;
            leader_election_id = codes "redis-operator.example.com";
          }),
          End.no_manager,
        )
        ∷ controls Kind.redis (codes "redis-controller") none
            (Owned.stateful_set ∷ Owned.deployment ∷ Owned.service ∷ Owned.config_map ∷ [])
        ∷ controls Kind.redis_sentinel (codes "redissentinel-controller") none (
            Owned.stateful_set ∷ Owned.deployment ∷ Owned.service ∷ Owned.config_map
            ∷ Owned.pod_disruption_budget ∷ [])
        ∷ controls Kind.redis_cluster (codes "rediscluster-controller")
            (some default_client_options)
            (Owned.stateful_set ∷ Owned.service ∷ Owned.config_map ∷ Owned.pod_disruption_budget
              ∷ [])
        ∷ [])
      ++ (webhooks flags.enable_webhooks
          ++ ((Request.add_healthz_check (codes "healthz"), End.no_health_check)
              ∷ (Request.add_readyz_check (codes "readyz"), End.no_ready_check)
              ∷ (Request.start, End.not_running)
              ∷ []))

  abbrev pub requests : List (Step Tls) → List (Request Tls)
  requests [] = []
  requests (x ∷ xs) = x.0 ∷ requests xs

  module _ (fails : Request Tls → Bool) where
    -- The steps up to the first one that fails.
    first_failure : List (Step Tls) → Run Tls
    first_failure [] = ([], End.returned)
    first_failure (x ∷ xs) =
        let rest = first_failure xs in if fails x.0 then (x.0 ∷ [], x.1) else (x.0 ∷ rest.0, rest.1)

    abbrev pub Passes : Step Tls → Type 0
    Passes x = fails x.0 ≡ false

    -- All steps were taken, or those up to one that failed.
    abbrev pub Stops : List (Step Tls) → Run Tls → Type 0
    Stops xs run =
        (All Passes xs × (run ≡ (requests xs, End.returned)))
        ⊎ ((done : List (Step Tls)) × (failed : Step Tls) × (rest : List (Step Tls)) × (xs
              ≡ done ++ failed ∷ rest)
            × All Passes done
            × (fails failed.0 ≡ true)
            × (run ≡ (requests done ++ failed.0 ∷ [], failed.1)))
