-- ===== src/Resources/Container.antt =====
-- The containers, volumes and claims of internal/resources/statefulset.go and deployment.go.
use kubernetes_redis_operato.Prelude.{
  ℕ, Bool, true, false, List, [], ◌∷◌, ◌++◌, Option, none, some, if◌then◌else◌,
}
use kubernetes_redis_operato.Go.Text.{Str, codes}
use kubernetes_redis_operato.Go.Number.{itoa}
use kubernetes_redis_operato.Api.Types.{StorageSpec, default_redis_image, default_exporter_image}
use kubernetes_redis_operato.Api.Objects.{RedisSentinel}
use kubernetes_redis_operato.Resources.Labels.{
  redis_port, sentinel_port, headless_service_name, component_redis,
}
use kubernetes_redis_operato.Resources.Object.{
  EnvSource, EnvVar, VolumeMount, VolumeSource, Volume, Probe, Container, PodSpec, ClaimTemplate,
}

abbrev pub exporter_port : ℕ
exporter_port = 9121

-- `if image == ""`
abbrev pub image_or : Str → Str → Str
image_or [] default = default
image_or (c ∷ s) default = c ∷ s

-- `x == nil || *x`
abbrev pub on_by_default : Option Bool → Bool
on_by_default none = true
on_by_default (some b) = b

-- A variable with the password, if there is a secret.
abbrev pub password_env : Str → Option Str → List EnvVar
password_env name none = []
password_env name (some secret) =
    record { name = name; source = EnvSource.secret_password secret } ∷ []

abbrev pub mount : Str → Str → Bool → VolumeMount
mount name path read_only = record { name = name; path = path; read_only = read_only }

abbrev pub data_mounts : Bool → List VolumeMount
data_mounts true = mount (codes "data") (codes "/data") false ∷ []
data_mounts false = []

abbrev pub tls_mounts : Option Str → List VolumeMount
tls_mounts none = []
tls_mounts (some secret) = mount (codes "tls") (codes "/tls") true ∷ []

abbrev pub liveness_probe : Probe
liveness_probe = record {
  command = codes "redis-cli" ∷ codes "PING" ∷ [];
  initial_delay = 10;
  period = 10;
  timeout = 5;
  failure_threshold = some 3;
}

-- The script saves, and asks the sentinels for a failover if the pod is the master.
abbrev pub pre_stop_script : Str
pre_stop_script =
    codes "redis-cli SAVE || true; "
    ++ codes "ROLE=$(redis-cli ROLE 2>/dev/null | head -1 || echo unknown); "
    ++ codes "if [ \"$ROLE\" = \"master\" ] && [ -n \"$SENTINEL_SVC\" ]; then "
    ++ codes "redis-cli -p 26379 -h \"$SENTINEL_SVC\" SENTINEL FAILOVER mymaster || true; "
    ++ codes "sleep 5; fi"

abbrev pub shell : Str → List Str
shell script = codes "sh" ∷ codes "-c" ∷ script ∷ []

unfoldable pub build_redis_container : Str → Option Str → Option Str → Bool → Container
build_redis_container image auth tls has_storage = record {
  name = codes "redis";
  image = image_or image default_redis_image;
  command = codes "redis-server" ∷ codes "/etc/redis/redis.conf" ∷ [];
  env = password_env (codes "REDISCLI_AUTH") auth;
  mounts =
      mount (codes "config") (codes "/etc/redis") false ∷ data_mounts has_storage ++ tls_mounts tls;
  ports = record { name = codes "redis"; port = redis_port } ∷ [];
  liveness = some liveness_probe;
  readiness = some (record liveness_probe { period = 5; timeout = 3; initial_delay = 5 });
  pre_stop = shell pre_stop_script;
}

unfoldable pub build_exporter_container : Str → Option Str → Container
unfolding itoa
build_exporter_container image auth = record {
  name = codes "redis-exporter";
  image = image_or image default_exporter_image;
  command = [];
  env =
      record {
        name = codes "REDIS_ADDR";
        source = EnvSource.literal (codes "redis://localhost:" ++ itoa redis_port);
      }
      ∷ password_env (codes "REDIS_PASSWORD") auth;
  mounts = [];
  ports = record { name = codes "metrics"; port = exporter_port } ∷ [];
  liveness = none;
  readiness = none;
  pre_stop = [];
}

abbrev pub tls_volumes : Option Str → List Volume
tls_volumes none = []
tls_volumes (some secret) =
    record { name = codes "tls"; source = VolumeSource.from_secret secret } ∷ []

abbrev pub build_volumes : Str → Option Str → List Volume
build_volumes config_map tls =
    record { name = codes "config"; source = VolumeSource.from_config_map config_map }
    ∷ tls_volumes tls

abbrev pub build_pvc_templates : StorageSpec → List ClaimTemplate
build_pvc_templates s =
    record { name = codes "data"; size = s.size; class_name = s.class_name } ∷ []

-- The exporter runs beside the server unless it is switched off.
abbrev pub with_exporter : Option Bool → Container → Container → List Container
with_exporter enabled redis exporter =
    if on_by_default enabled then redis ∷ exporter ∷ [] else redis ∷ []

unfoldable pub build_redis_pod_spec :
    Str → Str → Option Bool → Option Str → Option Str → Str → Bool → PodSpec
unfolding build_redis_container build_exporter_container
build_redis_pod_spec image exporter_image enabled auth tls config_map has_storage = record {
  init_containers = [];
  containers =
      with_exporter enabled (build_redis_container image auth tls has_storage)
        (build_exporter_container exporter_image auth);
  volumes = build_volumes config_map tls;
}

-- A node of a cluster announces its address, which it adds to the configuration at the start.
abbrev pub announcing : Container → Container
announcing c = record c {
  env =
      c.env
      ++ record { name = codes "POD_IP"; source = EnvSource.field (codes "status.podIP") } ∷ [];
  command = shell (
      codes
        "echo \"cluster-announce-ip ${POD_IP}\" >> /etc/redis/redis.conf && exec redis-server /etc/redis/redis.conf");
}

unfoldable pub build_cluster_pod_spec :
    Str → Str → Option Bool → Option Str → Option Str → Str → PodSpec
unfolding build_redis_container build_exporter_container
build_cluster_pod_spec image exporter_image enabled auth tls config_map = record {
  init_containers = [];
  containers =
      with_exporter enabled (announcing (build_redis_container image auth tls true))
        (build_exporter_container exporter_image auth);
  volumes = build_volumes config_map tls;
}

-- The script that makes all pods but the first one replicas of that.
abbrev pub init_script : RedisSentinel → Str
init_script rs =
    codes
      "\nset -e\nINDEX=$(echo $POD_NAME | rev | cut -d- -f1 | rev)\nif [ \"$INDEX\" = \"0\" ]; then\n"
    ++ codes "  echo \"This is the master pod, no REPLICAOF needed.\"\nelse\n  MASTER=\""
    ++ rs.name
    ++ codes "-0."
    ++ headless_service_name rs.name component_redis
    ++ b'.' ∷ rs.namespace
    ++ codes ".svc.cluster.local\"\n  echo \"Configuring REPLICAOF $MASTER 6379\"\n"
    ++ codes "  echo \"replicaof $MASTER 6379\" >> /etc/redis/redis.conf\nfi\n"

unfoldable pub build_sentinel_init_container : RedisSentinel → Container
build_sentinel_init_container rs = record {
  name = codes "init-replication";
  image = rs.spec.image;
  command = shell (init_script rs);
  env = record { name = codes "POD_NAME"; source = EnvSource.field (codes "metadata.name") } ∷ [];
  mounts = mount (codes "config") (codes "/etc/redis") false ∷ [];
  ports = [];
  liveness = none;
  readiness = none;
  pre_stop = [];
}

abbrev pub sentinel_probe : Probe
sentinel_probe = record {
  command = codes "redis-cli" ∷ codes "-p" ∷ codes "26379" ∷ codes "PING" ∷ [];
  initial_delay = 15;
  period = 10;
  timeout = 5;
  failure_threshold = none;
}

unfoldable pub build_sentinel_container : RedisSentinel → Container
build_sentinel_container rs = record {
  name = codes "sentinel";
  image = image_or (image_or rs.spec.sentinel_image rs.spec.image) default_redis_image;
  command = codes "redis-server" ∷ codes "/etc/sentinel/sentinel.conf" ∷ codes "--sentinel" ∷ [];
  env = password_env (codes "REDISCLI_AUTH") rs.spec.auth;
  mounts =
      mount (codes "sentinel-config") (codes "/etc/sentinel") false
      ∷ mount (codes "sentinel-data") (codes "/data") false
      ∷ [];
  ports = record { name = codes "sentinel"; port = sentinel_port } ∷ [];
  liveness = some sentinel_probe;
  readiness = some sentinel_probe;
  pre_stop = [];
}
