-- ===== src/Redis/Effect.antt =====
-- The effects of internal/redis and internal/controller. A computation reads the log of what the process has done so far
-- and returns a result with the longer log; what the outside answers is a function of that log.
use kubernetes_redis_operato.Prelude.{◌≡◌, refl, ℕ, ◌⊎◌, inl, inr, Bool, List, [], ◌∷◌}
use kubernetes_redis_operato.Prelude.Int.{ℤ}
use kubernetes_redis_operato.Go.Text.{Str}
use kubernetes_redis_operato.Go.Map.{Map}
use kubernetes_redis_operato.Api.Types.{Phase}
use kubernetes_redis_operato.Resources.Object.{Resource}

-- One constructor for each `fmt.Errorf` of internal/redis, with the error that it wraps; the text
-- is left out. `external` is an error that comes from outside.
pub data Error : Type 0 where
  external : ℕ → Error
  no_port invalid_port : Str → Error
  few_masters : ℕ → Error
  invalid_master_address invalid_replica_address : Str → Error → Error
  meet_failed : Str → Str → Error → Error
  meet_replica_failed : Str → Error → Error
  waiting_formation assigning_slots waiting_ready waiting_replicas fetching_nodes : Error → Error
  wrong_master_count : ℕ → ℕ → Error
  replicate_failed : Str → Str → Error → Error
  no_masters : Error
  add_slots_failed : Str → Error → Error
  fetching_dest_nodes fetching_source_nodes : Error → Error
  no_dest_id no_source_id : Str → Error
  importing_failed migrating_failed keys_failed fetching_all_nodes : ℤ → Error → Error
  get_keys_failed : ℤ → Error → Error
  migrate_failed : Str → Error → Error
  node_not_found replica_not_found master_not_found : Str → Error
  reset_failed : Str → Error → Error
  not_ready : Str → Error
  not_known : Str → ℕ → Error
  no_ping : Str → Error
  no_sentinel_master no_quorum : Error
  info_failed : Str → Error → Error
  no_version bad_slot : Error
  bad_master_reply bad_role_reply bad_ca : Error
  loading_key_pair reading_ca : Error → Error
  bad_master_port : Str → Error

-- Why there is no result: a runtime panic, or a loop that was given too little fuel.
pub data Halt : Type 0 where
  panic out_of_fuel : Halt

pub data Result {ℓ} (A : Type ℓ) : Type ℓ where
  ok : A → Result A
  err : Error → Result A
  halt : Halt → Result A

-- What the process does to the outside: a call of the client, a request to the API server, a reading
-- of the clock, or a wait for a number of nanoseconds or the end of the context.
pub data Command : Type 0 where
  ping : Str → Command
  info : Str → Str → Command
  config_set : Str → Str → Str → Command
  config_get : Str → Str → Command
  save : Str → Command
  cluster_info cluster_nodes : Str → Command
  cluster_meet : Str → Str → ℤ → Command
  cluster_add_slots cluster_del_slots : Str → List ℤ → Command
  cluster_replicate : Str → Str → Command
  cluster_failover : Str → Command
  cluster_forget : Str → Str → Command
  cluster_reset : Str → Bool → Command
  cluster_set_slot : Str → ℤ → Str → Str → Command
  cluster_get_keys_in_slot : Str → ℤ → ℕ → Command
  cluster_count_keys_in_slot : Str → ℤ → Command
  migrate : Str → Str → ℤ → Str → ℕ → ℕ → Command
  sentinel_master sentinel_get_master_addr sentinel_failover sentinel_reset : Str → Str → Command
  replica_of : Str → Str → ℤ → Command
  role : Str → Command
  -- requests to the API server: reading the custom resource, writing it with the finalizer or
  -- without, and writing its status with a phase
  get_object : Command
  update_object : Bool → Command
  update_status : Phase → Command
  -- creating or updating an owned object
  apply : Resource → Command
  -- the pods of a component, and the label and the annotation that are patched
  list_pods : Str → Command
  patch_role : Str → Str → Command
  patch_hash : Str → Command
  -- persistent volume claims by labels or by name, and a secret
  list_claims : Map Str → Command
  get_claim delete_claim get_secret : Str → Command
  clock : Command
  wait : ℕ → Command

-- The newest command stands first.
abbrev pub Log : Type 0
Log = List Command

abbrev pub M : Type 0 → Type 0
M A = Log → Result A × Log

abbrev pub pure : {A : Type 0} → A → M A
pure a l = (ok a, l)

abbrev pub fail : {A : Type 0} → Error → M A
fail e l = (err e, l)

abbrev pub stop : {A : Type 0} → Halt → M A
stop h l = (halt h, l)

abbrev pub answered : {A : Type 0} → Error ⊎ A → Result A
answered (inl e) = err e
answered (inr a) = ok a

-- A command, and the answer to it.
abbrev pub call : {A : Type 0} → Command → (Log → Error ⊎ A) → M A
call e answer l = (answered (answer (e ∷ l)), e ∷ l)

abbrev pub and_then : {A B : Type 0} → Result A × Log → (A → M B) → Result B × Log
and_then (ok a, l) f = f a l
and_then (err e, l) f = (err e, l)
and_then (halt h, l) f = (halt h, l)

infixl 5 ◌>>=◌ ◌>>◌
abbrev pub ◌>>=◌ : {A B : Type 0} → M A → (A → M B) → M B
◌>>=◌ m f l = and_then (m l) f

abbrev pub ◌>>◌ : {B : Type 0} → M (Unit {0}) → M B → M B
m >> k = m >>= λ _. k

abbrev pub rewrap : {A : Type 0} → (Error → Error) → Result A × Log → Result A × Log
rewrap f (ok a, l) = (ok a, l)
rewrap f (err e, l) = (err (f e), l)
rewrap f (halt h, l) = (halt h, l)

-- `if err != nil { return fmt.Errorf("…: %w", err) }`
abbrev pub wrapping : {A : Type 0} → (Error → Error) → M A → M A
wrapping f m l = rewrap f (m l)

abbrev pub caught : {A : Type 0} → Result A × Log → Result (Error ⊎ A) × Log
caught (ok a, l) = (ok (inr a), l)
caught (err e, l) = (ok (inl e), l)
caught (halt h, l) = (halt h, l)

-- The error is a value, on which the code goes on to branch.
abbrev pub attempt : {A : Type 0} → M A → M (Error ⊎ A)
attempt m l = caught (m l)

-- `_ = f()`
abbrev pub ignoring : {A : Type 0} → M A → M (Unit {0})
ignoring m = attempt m >>= λ _. pure tt

-- A loop over a list that returns at the first error.
unfoldable pub for_each : {A : Type 0} → (A → M (Unit {0})) → List A → M (Unit {0})
for_each body [] = pure tt
for_each body (x ∷ xs) = body x >> for_each body xs

-- The log after further commands, in the order in which they were issued.
abbrev pub emit : List Command → Log → Log
emit [] l = l
emit (e ∷ es) l = emit es (e ∷ l)

-- To split on an answer and keep the equation.
pub answer_cases :
    {A : Type 0} (x : Error ⊎ A) → ((e : Error) × (x ≡ inl e)) ⊎ ((a : A) × (x ≡ inr a))
answer_cases (inl e) = inl (e, refl)
answer_cases (inr a) = inr (a, refl)

-- A computed value or error.
abbrev pub lift : {A : Type 0} → Error ⊎ A → M A
lift x l = (answered x, l)
