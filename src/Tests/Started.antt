-- ===== src/Tests/Started.antt =====
-- A process whose webhook of RedisSentinel is refused.
use kubernetes_redis_operato.Prelude.{Bool, true, false}
use kubernetes_redis_operato.Metrics.Recorder.{Kind}
use kubernetes_redis_operato.Entry.{Flags, default_flags, Request}
use kubernetes_redis_operato.Entry.Stops.{Stops}

abbrev admitting : Flags
admitting = record default_flags { enable_webhooks = true }

abbrev refused : Request (Unit {0}) → Bool
refused (Request.new_webhook Kind.redis_sentinel) = true
refused _ = false
