-- ===== src/Lib.antt =====
-- A model of the Redis operator, a Kubernetes operator that forms, scales and watches Redis clusters.
--
-- Parts. The controllers (internal/controller) read a custom resource, write the Kubernetes objects
-- that internal/resources describes, compare the resource with the state of the servers and act
-- through two managers (internal/redis), which issue Redis commands through the interface
-- `RedisClient` and read the answers. Webhooks (api/v1alpha1) fill in and check the resources before
-- the controllers see them. The controllers count what they do in Prometheus metrics (internal/metrics).
--
-- Files.
-- - Prelude: library names, numbers, integers and lists that the other modules share.
-- - Go: what the code uses of Go's standard library: text (strings), decimal numbers (strconv, and
--   fmt with %d), int32 and int, maps. Their behaviour is written out from its documentation. Go/Text
--   and its children are about splitting and joining, Go/Number/RoundTrip about reading what was printed.
-- - Redis/Effect, Redis/Client, Redis/Calls: the interface of internal/redis/client.go. A computation
--   reads a log of the commands issued so far, the newest first, and returns a value, an error or a
--   halt with the longer log. The answers of the servers, the clock, the end of the context and the
--   order in which a map is visited are functions of that log, hence arbitrary and changing.
-- - Redis/Node, Redis/Parse: the data and the parsers of internal/redis/client.go. Redis/Parse/Print is
--   the text that Redis writes for the same data, which the parsers are compared with.
-- - Redis/GoRedis, Redis/Tls, Redis/Remote: the rest of client.go. The library go-redis and crypto/tls are
--   records of parameters; `NewClient` is `new_client`, which builds the interface of Redis/Client with
--   one function of Redis/Remote/Methods for each method; Redis/Tls is `NewTLSConfig`.
-- - Redis/Slots, Redis/Migrate, Redis/Rebalance, Redis/Members, Redis/Form, Redis/Addr:
--   `AssignSlotsEvenly`, `MigrateSlot`, `RebalanceSlots`, adding and removing of nodes, `FormCluster`
--   and `splitAddr` of internal/redis/cluster.go.
-- - Redis/Wait, Redis/Info: internal/redis/health.go and the waiting loops of cluster.go.
-- - Redis/Sentinel: internal/redis/sentinel.go.
-- - Redis/Loops: lemmas on the effects that the theorems share; Redis/Chain builds a chain of steps
--   together with what it issues.
-- - Api: the types and webhooks of api/v1alpha1, Api/Storage the storage checks they share,
--   Api/Objects what the controllers read of a custom resource.
-- - Resources: the builders of internal/resources: labels and names, services, disruption budgets,
--   monitors, configuration files, and the stateful sets and deployments with their pods.
-- - Controller/Kube: the requests to the API server, whose answers are parameters like those of the
--   servers; they stand in the same log. `CreateOrUpdate` is one request, Controller/Apply what it
--   does to the stored object of every sort.
-- - Controller/Reconcile: what the `doReconcile` of the three controllers have in common, and lemmas
--   on it. A custom resource that is read is a parameter, too.
-- - Controller/Standalone, Controller/Sentinel, Controller/Cluster: redis_controller.go,
--   redissentinel_controller.go and rediscluster_controller.go. The parts of the last one are in
--   Controller/Names (addresses), Pods (readiness), Lifecycle (forming and scaling), Failover (the
--   rolling failover), Reload (the hot reload, with that of redis_controller.go) and Status.
-- - Controller/Conditions: the condition Ready that the three controllers write to a status;
--   `SetStatusCondition` is a parameter.
-- - Metrics: internal/metrics: the vectors of metrics.go in Metrics/Vectors, a registry of which is the
--   state, and the functions of recorder.go in Metrics/Recorder.
-- - Controller/Metered: `Reconcile` of the three controllers with the updates of the metrics, over the
--   functions of the modules above, which leave them out. Durations are in nanoseconds, and
--   `time.Since` is a parameter.
-- - Entry: cmd/main.go with the functions that register controllers and webhooks.
-- - Tests: concrete runs.
--
-- Bounds. A loop that the source does not bound takes fuel: polling one unit for each round, of at
-- least two seconds, so that a timeout divided by two seconds and one more unit suffice where the
-- clock goes forward; the loop over batches of keys one unit for each batch, so that one unit more
-- than there are keys suffices where keys that were moved are gone. Without enough fuel a run halts,
-- which is told apart from every error. int32 arithmetic wraps around; the int arithmetic of
-- `RebalanceSlots` wraps at 64 bits. Other sums of int, over slots, indices and lengths, are numbers.
--
-- Not modelled. The texts of errors and log messages, events, what go-redis sends and how it reads
-- answers. The controller of RedisCluster without a `RedisClient` or a `ClusterManager`, which
-- main.go does not build; the other two are modelled with a client and without. Resources,
-- affinity, tolerations and node selectors of pods, which pass through untouched. What the API
-- server does with an object. The parsing of the flags, the logger, and the registration of the
-- metrics; generated code. Texts are lists of code points, so invalid UTF-8 does not occur.
-- Quantities of Kubernetes, SHA-256 and the order in which Go visits a map are parameters.
pub mod Prelude
pub mod Go
pub mod Redis
pub mod Api
pub mod Metrics
pub mod Resources
pub mod Controller
pub mod Entry
pub mod Tests
