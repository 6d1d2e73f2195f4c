-- ===== src/Redis/Remote/Master.antt =====
-- When the client of internal/redis/client.go finds the address of the master in the answer of a
-- sentinel.
use kubernetes_redis_operato.Prelude.{◌≡◌, ◌↔◌, inl, inr, some, List, [], ◌∷◌, Option-cases}
use kubernetes_redis_operato.Prelude.Int.{ℤ}
use kubernetes_redis_operato.Go.Text.{Str, codes}
use kubernetes_redis_operato.Go.Number.{atoi}
use kubernetes_redis_operato.Redis.Effect.{Result, Command, Log, answered}
use kubernetes_redis_operato.Redis.Calls
use kubernetes_redis_operato.Redis.GoRedis.{GoRedis, Request}
use kubernetes_redis_operato.Redis.Remote.{ClientOptions, say, master_address, new_go_redis_client}
use kubernetes_redis_operato.Redis.Remote.Methods
use kubernetes_redis_operato.Redis.Remote.Dispatch.{new_client}

-- A host, and the text of a port, with further texts.
abbrev pub Holds : List Str → Str → ℤ → Type 0
Holds texts host port =
    (text : Str) × (rest : List Str) × (texts ≡ host ∷ text ∷ rest) × (atoi text ≡ some port)

master_address-Holds :
    (texts : List Str) (host : Str) (port : ℤ)
    → (answered (master_address texts) ≡ Result.ok (host, port)) ↔ Holds texts host port
unfolding master_address
master_address-Holds (h ∷ text ∷ rest) host port = (
  λ r. elim (Option-cases (atoi text)) [
    | inl e ↦ cc (rw e at r)
    | inr (p, e) ↦ (text, rest, cc (rw e at r), cc (rw e at r))
  ],
  λ (t, ts, s, e). cc,
)
master_address-Holds (h ∷ []) host port = (λ r. cc, λ (t, ts, s, e). cc)
master_address-Holds [] host port = (λ r. cc, λ (t, ts, s, e). cc)

abbrev pub master_request : Str → Request
master_request master =
    Request.words (say (codes "SENTINEL" ∷ codes "GET-MASTER-ADDR-BY-NAME" ∷ master ∷ []))

-- If a sentinel answers by a list of texts, the client returns a host and a port exactly when the
-- host is the first text and the second one is the port in decimal; a shorter list, or another second
-- text, is an error.
pub sentinel_get_master_addr-Holds :
    {Tls : Type 0} (g : GoRedis Tls) (opts : ClientOptions Tls) (addr master : Str) (l : Log)
    → (texts : List Str) (host : Str) (port : ℤ)
    → g.texts
        (new_go_redis_client opts addr)
        (master_request master)
        (Command.sentinel_get_master_addr addr master ∷ l)
      ≡ inr texts
    → ((Calls.sentinel_get_master_addr (new_client g opts) addr master l).0
        ≡ Result.ok (host, port))
      ↔ Holds texts host port
unfolding new_client Methods.sentinel_get_master_addr
sentinel_get_master_addr-Holds g opts addr master l texts host port e =
    rw e (master_address-Holds texts host port)
