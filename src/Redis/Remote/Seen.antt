-- ===== src/Redis/Remote/Seen.antt =====
-- What the managers see of a server through the client of internal/redis/client.go.
use kubernetes_redis_operato.Prelude.{◌≡◌, refl, ◌⊎◌, inr, List, ◌∷◌, map, ap}
use kubernetes_redis_operato.Go.Text.{Str}
use kubernetes_redis_operato.Redis.Effect.{Error, Result, Command, Log}
use kubernetes_redis_operato.Redis.Parse.{parse_cluster_info, parse_cluster_nodes}
use kubernetes_redis_operato.Redis.Parse.Print.{Entry, IsListed, All, print_nodes, seen}
use kubernetes_redis_operato.Redis.Parse.RoundTrip.{parse_cluster_nodes-print_nodes}
use kubernetes_redis_operato.Redis.Parse.Info.{
  Told, IsTold, told_pairs, print_info, info_seen, parse_cluster_info-print_info,
}
use kubernetes_redis_operato.Redis.Members.{state_of, get_cluster_state}
use kubernetes_redis_operato.Redis.GoRedis.{GoRedis, Request}
use kubernetes_redis_operato.Redis.Remote.{ClientOptions, map_answer, new_go_redis_client}
use kubernetes_redis_operato.Redis.Remote.Methods
use kubernetes_redis_operato.Redis.Remote.Dispatch.{new_client}

map_answer_lem :
    {A B : Type 0} (f : A → B) (x : Error ⊎ A) (a : A) (b : B)
    → x ≡ inr a
    → f a ≡ b
    → map_answer f x ≡ inr b
map_answer_lem f x a b e k = rw e (ap inr k)

module _ {Tls : Type 0} (g : GoRedis Tls) (opts : ClientOptions Tls) (addr : Str) where
  nodes_answered :
      (es : List Entry) (l : Log)
      → All IsListed es
      → g.text
          (new_go_redis_client opts addr)
          Request.cluster_nodes
          (Command.cluster_nodes addr ∷ l)
        ≡ inr (print_nodes es)
      → (new_client g opts).cluster_nodes (Command.cluster_nodes addr ∷ l) ≡ inr (map seen es)
  unfolding new_client Methods.cluster_nodes
  nodes_answered es l h e =
      map_answer_lem parse_cluster_nodes _ _ _ e (parse_cluster_nodes-print_nodes es h)

  info_answered :
      (t : Told) (l : Log)
      → IsTold t
      → g.text (new_go_redis_client opts addr) Request.cluster_info (Command.cluster_info addr ∷ l)
        ≡ inr (print_info (told_pairs t))
      → (new_client g opts).cluster_info (Command.cluster_info addr ∷ l) ≡ inr (info_seen t)
  unfolding new_client Methods.cluster_info
  info_answered t l h e =
      map_answer_lem parse_cluster_info _ _ _ e (parse_cluster_info-print_info t h)

  -- If a server answers CLUSTER INFO and CLUSTER NODES by the texts that stand for what it tells and
  -- for the entries of its nodes, the state of the cluster that the managers read through the client
  -- is just that: the state, the counts, and every node with its address, its flags and its slots.
  pub get_cluster_state-new_client :
      (t : Told) (es : List Entry) (l : Log)
      → IsTold t
      → All IsListed es
      → g.text (new_go_redis_client opts addr) Request.cluster_info (Command.cluster_info addr ∷ l)
        ≡ inr (print_info (told_pairs t))
      → g.text
          (new_go_redis_client opts addr)
          Request.cluster_nodes
          (Command.cluster_nodes addr ∷ Command.cluster_info addr ∷ l)
        ≡ inr (print_nodes es)
      → get_cluster_state (new_client g opts) addr l ≡ (
        Result.ok (state_of (info_seen t) (map seen es)),
        Command.cluster_nodes addr ∷ Command.cluster_info addr ∷ l,
      )
  unfolding get_cluster_state
  get_cluster_state-new_client t es l ht hes et ees =
      rw (info_answered t l ht et, nodes_answered es (Command.cluster_info addr ∷ l) hes ees) refl
