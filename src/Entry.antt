-- ===== src/Entry.antt =====
-- cmd/main.go, and the functions `SetupWithManager` and `SetupWebhookWithManager` that it calls. What the
-- libraries are asked for is a request, whose success is a parameter; a run is the requests made, in
-- order, and how the process ended. Flags are given; their parsing and the logger are left out.
-- `GetConfigOrDie`, which also exits with the status 1, is part of the request for the manager.
pub mod Stops
use kubernetes_redis_operato.Prelude.{
  Bool, false, true, Option, none, some, List, [], ◌∷◌, if◌then◌else◌,
}
use kubernetes_redis_operato.Prelude.Int.{ℤ, pos}
use kubernetes_redis_operato.Go.Text.{Str, codes}
use kubernetes_redis_operato.Redis.Remote.{ClientOptions, default_client_options}
use kubernetes_redis_operato.Metrics.Recorder.{Kind}

pub record Flags : Type 0 where
  pub metrics_addr : Str
  pub probe_addr : Str
  pub enable_leader_election : Bool
  pub webhook_port : ℤ
  pub enable_webhooks : Bool

-- The values of the flags that are not given.
abbrev pub default_flags : Flags
default_flags = record {
  metrics_addr = codes ":8080";
  probe_addr = codes ":8081";
  enable_leader_election = false;
  webhook_port = pos 9443;
  enable_webhooks = false;
}

-- `ctrl.Options`, without the scheme.
pub record ManagerOptions : Type 0 where
  pub metrics_bind_address : Str
  pub webhook_server_port : ℤ
  pub health_probe_bind_address : Str
  pub leader_election : Bool
  pub leader_election_id : Str

-- What is added to the scheme, and the sorts of objects that a controller watches beside its own.
pub data Group : Type 0 where
  client_go redis_v1alpha1 monitoring_v1 apps_v1 core_v1 policy_v1 : Group

pub data Owned : Type 0 where
  stateful_set deployment service config_map pod_disruption_budget : Owned

-- A reconciler: a client, or a cluster manager over one, is given by the options of that client.
pub record Reconciler (Tls : Type 0) : Type 0 where
  pub sort : Kind
  pub event_recorder : Str
  pub redis_client : Option (ClientOptions Tls)
  pub cluster_manager : Option (ClientOptions Tls)

pub data Request (Tls : Type 0) : Type 0 where
  add_to_scheme : Group → Request Tls
  new_manager : ManagerOptions → Request Tls
  new_controller : Reconciler Tls → List Owned → Request Tls
  new_webhook : Kind → Request Tls
  add_healthz_check add_readyz_check : Str → Request Tls
  start : Request Tls

-- The process panics, exits with the status 1 after a message, or `main` returns.
pub data End : Type 0 where
  panicked : Group → End
  no_manager no_health_check no_ready_check not_running returned : End
  no_controller no_webhook : Kind → End

abbrev pub Run : Type 0 → Type 0
Run Tls = List (Request Tls) × End

-- The `Owns` of `SetupWithManager`.
unfoldable pub owned_by : Kind → List Owned
owned_by Kind.redis = Owned.stateful_set ∷ Owned.deployment ∷ Owned.service ∷ Owned.config_map ∷ []
owned_by Kind.redis_sentinel =
    Owned.stateful_set ∷ Owned.deployment ∷ Owned.service ∷ Owned.config_map
    ∷ Owned.pod_disruption_budget ∷ []
owned_by Kind.redis_cluster =
    Owned.stateful_set ∷ Owned.service ∷ Owned.config_map ∷ Owned.pod_disruption_budget ∷ []

abbrev pub manager_options : Flags → ManagerOptions
manager_options flags = record {
  metrics_bind_address = flags.metrics_addr;
  webhook_server_port = flags.webhook_port;
  health_probe_bind_address = flags.probe_addr;
  leader_election = flags.enable_leader_election;
  leader_election_id = codes "redis-operator.example.com";
}

module _ {Tls : Type 0} where
  -- The reconcilers that `main` builds.
  abbrev pub redis_reconciler : Reconciler Tls
  redis_reconciler = record {
    sort = Kind.redis;
    event_recorder = codes "redis-controller";
    redis_client = none;
    cluster_manager = none;
  }

  abbrev pub sentinel_reconciler : Reconciler Tls
  sentinel_reconciler = record {
    sort = Kind.redis_sentinel;
    event_recorder = codes "redissentinel-controller";
    redis_client = none;
    cluster_manager = none;
  }

  unfoldable pub cluster_reconciler : Reconciler Tls
  unfolding default_client_options
  cluster_reconciler = record {
    sort = Kind.redis_cluster;
    event_recorder = codes "rediscluster-controller";
    redis_client = some default_client_options;
    cluster_manager = some default_client_options;
  }

  module _ (fails : Request Tls → Bool) where
    -- One request, how the process ends if it fails, and what follows if not.
    abbrev ask : Request Tls → End → Run Tls → Run Tls
    ask e end rest = if fails e then (e ∷ [], end) else (e ∷ rest.0, rest.1)

    unfoldable pub setup_with_manager : Reconciler Tls → Run Tls → Run Tls
    unfolding owned_by
    setup_with_manager r =
        ask (Request.new_controller r (owned_by r.sort)) (End.no_controller r.sort)

    unfoldable pub setup_webhook_with_manager : Kind → Run Tls → Run Tls
    setup_webhook_with_manager kind = ask (Request.new_webhook kind) (End.no_webhook kind)

    abbrev setup_webhooks : Bool → Run Tls → Run Tls
    setup_webhooks enabled rest =
        if enabled
        then setup_webhook_with_manager Kind.redis (
            setup_webhook_with_manager Kind.redis_sentinel
              (setup_webhook_with_manager Kind.redis_cluster rest))
        else rest

    unfoldable pub main : Flags → Run Tls
    unfolding setup_with_manager setup_webhook_with_manager cluster_reconciler
    main flags = ask (Request.new_manager (manager_options flags)) End.no_manager (
        setup_with_manager redis_reconciler (
          setup_with_manager sentinel_reconciler (
            setup_with_manager cluster_reconciler (
              setup_webhooks flags.enable_webhooks (
                ask (Request.add_healthz_check (codes "healthz")) End.no_health_check (
                  ask (Request.add_readyz_check (codes "readyz")) End.no_ready_check
                    (ask Request.start End.not_running ([], End.returned))))))))

    abbrev must_add : Group → Run Tls → Run Tls
    must_add g = ask (Request.add_to_scheme g) (End.panicked g)

    -- `init`, and `main` after it.
    unfoldable pub run_process : Flags → Run Tls
    unfolding main
    run_process flags = must_add Group.client_go (
        must_add Group.redis_v1alpha1 (
          must_add Group.monitoring_v1 (
            must_add Group.apps_v1
              (must_add Group.core_v1 (must_add Group.policy_v1 (main flags))))))
