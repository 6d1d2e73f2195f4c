-- ===== src/Controller/Kube.antt =====
-- The requests that the controllers make of the API server, which belongs to Kubernetes: its answers
-- are parameters, and may depend on all that was done before. `CreateOrUpdate` of the controller
-- runtime is one request; what it does to an object that exists is in Controller/Apply.antt.
use kubernetes_redis_operato.Prelude.{ℕ, Bool, List, ◌⊎◌}
use kubernetes_redis_operato.Go.Text.{Str}
use kubernetes_redis_operato.Go.Map.{Map}
use kubernetes_redis_operato.Api.Types.{Phase}
use kubernetes_redis_operato.Resources.Object.{Resource}
use kubernetes_redis_operato.Redis.Effect.{Error, Command, Log, M, call}

-- `ctrl.Result`: no requeue, one at once, or one after a number of seconds.
pub data Requeue : Type 0 where
  done again : Requeue
  after : ℕ → Requeue

-- Conditions, each its type and its status.
pub record Pod : Type 0 where
  pub name : Str
  pub pod_ip : Str
  pub labels : Map Str
  pub conditions : List (Str × Str)

pub record Kube : Type 0 where
  pub update : Log → Error ⊎ (Unit {0})
  pub update_status : Log → Error ⊎ (Unit {0})
  pub apply : Log → Error ⊎ (Unit {0})
  pub list_pods : Log → Error ⊎ (List Pod)
  pub patch : Log → Error ⊎ (Unit {0})
  -- patching the custom resource; the client stores the answer in the object, its phase included
  pub patch_object : Log → Error ⊎ Phase
  pub list_claims : Log → Error ⊎ (List Str)
  pub get_claim : Log → Error ⊎ (Unit {0})
  pub delete_claim : Log → Error ⊎ (Unit {0})
  pub get_secret : Log → Error ⊎ (Unit {0})
  -- `errors.IsNotFound`
  pub is_not_found : Error → Bool

module _ (k : Kube) where
  abbrev pub update_object : Bool → M (Unit {0})
  update_object finalizer = call (Command.update_object finalizer) k.update

  abbrev pub update_status : Phase → M (Unit {0})
  update_status phase = call (Command.update_status phase) k.update_status

  abbrev pub apply : Resource → M (Unit {0})
  apply r = call (Command.apply r) k.apply

  abbrev pub list_pods : Str → M (List Pod)
  list_pods component = call (Command.list_pods component) k.list_pods

  abbrev pub patch_role : Str → Str → M (Unit {0})
  patch_role pod role = call (Command.patch_role pod role) k.patch

  abbrev pub patch_hash : Str → M Phase
  patch_hash hash = call (Command.patch_hash hash) k.patch_object

  abbrev pub list_claims : Map Str → M (List Str)
  list_claims labels = call (Command.list_claims labels) k.list_claims

  abbrev pub get_claim : Str → M (Unit {0})
  get_claim name = call (Command.get_claim name) k.get_claim

  abbrev pub delete_claim : Str → M (Unit {0})
  delete_claim name = call (Command.delete_claim name) k.delete_claim

  abbrev pub get_secret : Str → M (Unit {0})
  get_secret name = call (Command.get_secret name) k.get_secret
