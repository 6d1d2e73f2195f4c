-- ===== src/Redis/Remote/Dispatch.antt =====
-- `NewClient` of internal/redis/client.go: the methods of `client` as a `RedisClient`. What such a
-- method is asked for is the command in front of the log.
use kubernetes_redis_operato.Prelude.{◌∷◌, ◌⊎◌, inl}
use kubernetes_redis_operato.Redis.Effect.{Error, Command}
use kubernetes_redis_operato.Redis.Client.{RedisClient}
use kubernetes_redis_operato.Redis.GoRedis.{GoRedis}
use kubernetes_redis_operato.Redis.Remote.{ClientOptions}
use kubernetes_redis_operato.Redis.Remote.Methods

-- No method is asked where its command does not stand in front: this value is never read.
abbrev not_asked : {A : Type 0} → Error ⊎ A
not_asked = inl (Error.external 0)

module _ {Tls : Type 0} (g : GoRedis Tls) (opts : ClientOptions Tls) where
  unfoldable pub new_client : RedisClient
  unfolding Methods.ping Methods.info Methods.config_set Methods.config_get Methods.save
      Methods.cluster_info Methods.cluster_nodes Methods.cluster_meet Methods.cluster_add_slots
      Methods.cluster_del_slots Methods.cluster_replicate Methods.cluster_failover
      Methods.cluster_forget Methods.cluster_reset Methods.cluster_set_slot
      Methods.cluster_get_keys_in_slot Methods.cluster_count_keys_in_slot Methods.migrate
      Methods.sentinel_master Methods.sentinel_get_master_addr Methods.sentinel_failover
      Methods.sentinel_reset Methods.replica_of Methods.role
  new_client = record {
    ping = λ l. elim l [
      | Command.ping addr ∷ before ↦ Methods.ping g opts addr (Command.ping addr ∷ before)
      | _ ↦ not_asked
    ];
    info = λ l. elim l [
      | Command.info addr section ∷ before ↦
          Methods.info g opts addr section (Command.info addr section ∷ before)
      | _ ↦ not_asked
    ];
    config_set = λ l. elim l [
      | Command.config_set addr param value ∷ before ↦
          Methods.config_set g opts addr param value (Command.config_set addr param value ∷ before)
      | _ ↦ not_asked
    ];
    config_get = λ l. elim l [
      | Command.config_get addr param ∷ before ↦
          Methods.config_get g opts addr param (Command.config_get addr param ∷ before)
      | _ ↦ not_asked
    ];
    save = λ l. elim l [
      | Command.save addr ∷ before ↦ Methods.save g opts addr (Command.save addr ∷ before)
      | _ ↦ not_asked
    ];
    cluster_info = λ l. elim l [
      | Command.cluster_info addr ∷ before ↦
          Methods.cluster_info g opts addr (Command.cluster_info addr ∷ before)
      | _ ↦ not_asked
    ];
    cluster_nodes = λ l. elim l [
      | Command.cluster_nodes addr ∷ before ↦
          Methods.cluster_nodes g opts addr (Command.cluster_nodes addr ∷ before)
      | _ ↦ not_asked
    ];
    cluster_meet = λ l. elim l [
      | Command.cluster_meet addr ip port ∷ before ↦
          Methods.cluster_meet g opts addr ip port (Command.cluster_meet addr ip port ∷ before)
      | _ ↦ not_asked
    ];
    cluster_add_slots = λ l. elim l [
      | Command.cluster_add_slots addr slots ∷ before ↦
          Methods.cluster_add_slots g opts addr slots
            (Command.cluster_add_slots addr slots ∷ before)
      | _ ↦ not_asked
    ];
    cluster_del_slots = λ l. elim l [
      | Command.cluster_del_slots addr slots ∷ before ↦
          Methods.cluster_del_slots g opts addr slots
            (Command.cluster_del_slots addr slots ∷ before)
      | _ ↦ not_asked
    ];
    cluster_replicate = λ l. elim l [
      | Command.cluster_replicate addr master ∷ before ↦
          Methods.cluster_replicate g opts addr master
            (Command.cluster_replicate addr master ∷ before)
      | _ ↦ not_asked
    ];
    cluster_failover = λ l. elim l [
      | Command.cluster_failover addr ∷ before ↦
          Methods.cluster_failover g opts addr (Command.cluster_failover addr ∷ before)
      | _ ↦ not_asked
    ];
    cluster_forget = λ l. elim l [
      | Command.cluster_forget addr id ∷ before ↦
          Methods.cluster_forget g opts addr id (Command.cluster_forget addr id ∷ before)
      | _ ↦ not_asked
    ];
    cluster_reset = λ l. elim l [
      | Command.cluster_reset addr hard ∷ before ↦
          Methods.cluster_reset g opts addr hard (Command.cluster_reset addr hard ∷ before)
      | _ ↦ not_asked
    ];
    cluster_set_slot = λ l. elim l [
      | Command.cluster_set_slot addr slot state id ∷ before ↦
          Methods.cluster_set_slot g opts addr slot state id
            (Command.cluster_set_slot addr slot state id ∷ before)
      | _ ↦ not_asked
    ];
    cluster_get_keys_in_slot = λ l. elim l [
      | Command.cluster_get_keys_in_slot addr slot count ∷ before ↦
          Methods.cluster_get_keys_in_slot g opts addr slot count
            (Command.cluster_get_keys_in_slot addr slot count ∷ before)
      | _ ↦ not_asked
    ];
    cluster_count_keys_in_slot = λ l. elim l [
      | Command.cluster_count_keys_in_slot addr slot ∷ before ↦
          Methods.cluster_count_keys_in_slot g opts addr slot
            (Command.cluster_count_keys_in_slot addr slot ∷ before)
      | _ ↦ not_asked
    ];
    migrate = λ l. elim l [
      | Command.migrate addr ip port key db timeout ∷ before ↦
          Methods.migrate g opts addr ip port key db timeout
            (Command.migrate addr ip port key db timeout ∷ before)
      | _ ↦ not_asked
    ];
    sentinel_master = λ l. elim l [
      | Command.sentinel_master addr master ∷ before ↦
          Methods.sentinel_master g opts addr master (Command.sentinel_master addr master ∷ before)
      | _ ↦ not_asked
    ];
    sentinel_get_master_addr = λ l. elim l [
      | Command.sentinel_get_master_addr addr master ∷ before ↦
          Methods.sentinel_get_master_addr g opts addr master
            (Command.sentinel_get_master_addr addr master ∷ before)
      | _ ↦ not_asked
    ];
    sentinel_failover = λ l. elim l [
      | Command.sentinel_failover addr master ∷ before ↦
          Methods.sentinel_failover g opts addr master
            (Command.sentinel_failover addr master ∷ before)
      | _ ↦ not_asked
    ];
    sentinel_reset = λ l. elim l [
      | Command.sentinel_reset addr glob ∷ before ↦
          Methods.sentinel_reset g opts addr glob (Command.sentinel_reset addr glob ∷ before)
      | _ ↦ not_asked
    ];
    replica_of = λ l. elim l [
      | Command.replica_of addr host port ∷ before ↦
          Methods.replica_of g opts addr host port (Command.replica_of addr host port ∷ before)
      | _ ↦ not_asked
    ];
    role = λ l. elim l [
      | Command.role addr ∷ before ↦ Methods.role g opts addr (Command.role addr ∷ before)
      | _ ↦ not_asked
    ];
  }
