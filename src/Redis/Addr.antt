-- ===== src/Redis/Addr.antt =====
-- `splitAddr` of internal/redis/cluster.go.
use kubernetes_redis_operato.Prelude.{Option-cases, ◌≡◌, ◌⊎◌, inl, inr, none, some}
use kubernetes_redis_operato.Prelude.Int.{ℤ}
use kubernetes_redis_operato.Go.Text.{Str, cut_last}
use kubernetes_redis_operato.Go.Number.{sscanf_d}
use kubernetes_redis_operato.Redis.Effect.{Error}

unfoldable pub split_addr : Str → Error ⊎ (Str × ℤ)
unfolding cut_last sscanf_d
split_addr addr = elim (cut_last b':' addr) [
  | none ↦ inl (Error.no_port addr)
  | some (ip, digits) ↦ elim (sscanf_d digits) [
    | none ↦ inl (Error.invalid_port addr)
    | some port ↦ inr (ip, port)
  ]
]

-- The two ways to fail.
pub split_addr_fails :
    (addr : Str) (e : Error)
    → split_addr addr ≡ inl e
    → (e ≡ Error.no_port addr) ⊎ (e ≡ Error.invalid_port addr)
unfolding split_addr
split_addr_fails addr e h = elim (Option-cases (cut_last b':' addr)) [
  | inl p ↦ inl (cc (rw (p, split_addr) at h))
  | inr ((ip, digits), p) ↦ elim (Option-cases (sscanf_d digits)) [
    | inl q ↦ inr (cc (rw (p, split_addr, q) at h))
    | inr (port, q) ↦ cc (rw (p, split_addr, q) at h)
  ]
]
