-- ===== src/Controller/Sentinel/Roles.antt =====
-- The role labels of the pods, and the services that select by them.
use mathlib.Core.List.{flat_map}
use kubernetes_redis_operato.Prelude.{
  some, none, Option, false, ◌≡◌, ◌≢◌, ◌↔◌, refl, ap, ◌∙◌, List, [], ◌∷◌, ◌++◌, ◌⊎◌, inl, inr,
  Bool-cases, if◌then◌else◌,
}
use kubernetes_redis_operato.Prelude.Int.{ℤ}
use kubernetes_redis_operato.Go.Text.{Str, codes, str_eq, str_eq_iff}
use kubernetes_redis_operato.Go.Map.{lookup}
use kubernetes_redis_operato.Api.Objects.{RedisSentinel}
use kubernetes_redis_operato.Redis.Effect.{
  Error, Result, Command, Log, M, and_then, attempt, ◌>>=◌, emit, answer_cases,
}
use kubernetes_redis_operato.Redis.Loops.{for_each-emit, ignoring-call}
use kubernetes_redis_operato.Redis.Client.{RedisClient}
use kubernetes_redis_operato.Resources.Config.{value_of}
use kubernetes_redis_operato.Resources.Object.{Service}
use kubernetes_redis_operato.Resources.Labels.{component_redis, role_label_key}
use kubernetes_redis_operato.Resources.Service.{
  build_sentinel_master_service, build_sentinel_replica_service,
}
use kubernetes_redis_operato.Controller.Kube.{Kube, Pod, list_pods}
use kubernetes_redis_operato.Controller.Sentinel.{
  some, Option, sentinel_addr, sentinel_master_name, role_for, resolve_master, answered_master,
  ask_sentinels, master_pod_name, patch_pod, patch_pods, reconcile_role_labels,
}

-- The role of the pod `n`, which was `v`, after the patches among the commands are carried out.
unfoldable pub label_after : Str → Str → List Command → Str
unfolding str_eq
label_after n v [] = v
label_after n v (Command.patch_role m r ∷ es) = label_after n (if str_eq m n then r else v) es
label_after n v (e ∷ es) = label_after n v es

abbrev pub patches : Str → Pod → List Command
patches master p =
    if str_eq (value_of role_label_key p.labels) (role_for master p.name)
    then []
    else Command.patch_role p.name (role_for master p.name) ∷ []

module _ (master : Str) where
  stays :
      (n v : Str) (pods : List Pod)
      → v ≡ role_for master n
      → label_after n v (flat_map (patches master) pods) ≡ role_for master n
  unfolding label_after flat_map
  stays n v [] h = h
  stays n v (p ∷ pods) h =
      elim (Bool-cases (str_eq (value_of role_label_key p.labels) (role_for master p.name))) [
        | inl e ↦ rw e (stays n v pods h)
        | inr e ↦ rw e (elim (Bool-cases (str_eq p.name n)) [
          | inl q ↦ rw q (rw ((str_eq_iff p.name n).0 q) (stays n (role_for master n) pods refl))
          | inr q ↦ rw q (stays n v pods h)
        ])
      ]

  -- A pod that is listed ends with its role.
  gets_role :
      (xs ys : List Pod) (p : Pod) (v : Str)
      → (v ≡ value_of role_label_key p.labels) ⊎ (v ≡ role_for master p.name)
      → label_after p.name v (flat_map (patches master) (xs ++ p ∷ ys)) ≡ role_for master p.name
  unfolding label_after flat_map
  gets_role [] ys p v h =
      elim (Bool-cases (str_eq (value_of role_label_key p.labels) (role_for master p.name))) [
        | inl e ↦ rw e (
            stays p.name v ys (elim h [
              | inl q ↦
                  q ∙ (str_eq_iff (value_of role_label_key p.labels) (role_for master p.name)).0 e
              | inr q ↦ q
            ]))
        | inr e ↦
            rw (e, (str_eq_iff p.name p.name).1 refl)
              (stays p.name (role_for master p.name) ys refl)
      ]
  gets_role (x ∷ xs) ys p v h =
      elim (Bool-cases (str_eq (value_of role_label_key x.labels) (role_for master x.name))) [
        | inl e ↦ rw e (gets_role xs ys p v h)
        | inr e ↦ rw e (elim (Bool-cases (str_eq x.name p.name)) [
          | inl q ↦ rw q (
              gets_role xs ys p (role_for master x.name)
                (inr (ap (role_for master) ((str_eq_iff x.name p.name).0 q))))
          | inr q ↦ rw q (gets_role xs ys p v h)
        ])
      ]

module _ (k : Kube) (client : Option RedisClient) where
  patch_pod-emit :
      (master : Str) (p : Pod) (l : Log)
      → patch_pod k client master p l ≡ (Result.ok tt, emit (patches master p) l)
  patch_pod-emit master p l =
      elim (Bool-cases (str_eq (value_of role_label_key p.labels) (role_for master p.name))) [
        | inl e ↦ rw e
        | inr e ↦
            rw e (ignoring-call (Command.patch_role p.name (role_for master p.name)) k.patch l)
      ]

  resolve_master-ok :
      (default host : Str) (l : Log)
      → (master : Str) × ((resolve_master k client default host l).0 ≡ Result.ok master)
  resolve_master-ok default [] l = (default, refl)
  resolve_master-ok default (h ∷ ost) l =
      elim (answer_cases (k.list_pods (Command.list_pods component_redis ∷ l))) [
        | inl (_, a) ↦ rw a (_, refl)
        | inr (_, a) ↦ rw a (_, refl)
      ]

  answered_master-ok :
      (default : Str) (r : Error ⊎ (Str × ℤ)) (l : Log)
      → (master : Str) × ((answered_master k client default r l).0 ≡ Result.ok master)
  answered_master-ok default (inl e) l = (default, refl)
  answered_master-ok default (inr (host, port)) l = resolve_master-ok default host l

  ask_sentinels-ok :
      (o : Option RedisClient) (rs : RedisSentinel) (l : Log)
      → (master : Str) × ((ask_sentinels k client o rs l).0 ≡ Result.ok master)
  ask_sentinels-ok none rs l = (rs.name ++ codes "-0", refl)
  ask_sentinels-ok (some c) rs l =
      let asked = Command.sentinel_get_master_addr (sentinel_addr rs) sentinel_master_name ∷ l in
      elim (answer_cases (c.sentinel_get_master_addr asked)) [
        | inl (e, a) ↦ rw a (answered_master-ok (rs.name ++ codes "-0") (inl e) asked)
        | inr (m, a) ↦ rw a (answered_master-ok (rs.name ++ codes "-0") (inr m) asked)
      ]

  -- The master among the pods is always found, if only by default.
  pub master_pod_name-ok :
      (rs : RedisSentinel) (l : Log)
      → (master : Str) × ((master_pod_name k client rs l).0 ≡ Result.ok master)
  unfolding master_pod_name
  master_pod_name-ok rs l = ask_sentinels-ok client rs l

  and_then-ok :
      {A B : Type 0} (r : Result A × Log) (f : A → M B) (a : A)
      → r.0 ≡ Result.ok a
      → and_then r f ≡ f a r.1
  and_then-ok (Result.ok b, l) f a h = let same : b ≡ a = cc in ap (λ x. f x l) same
  and_then-ok (Result.err e, l) f a h = cc
  and_then-ok (Result.halt x, l) f a h = cc

  patch_pods-eq :
      (rs : RedisSentinel) (master : Str) (l : Log) (pods : List Pod)
      → k.list_pods (Command.list_pods component_redis ∷ l) ≡ inr pods
      → (attempt (list_pods k component_redis) >>= patch_pods k client rs master) l ≡ (
        Result.ok master,
        emit (flat_map (patches master) pods) (Command.list_pods component_redis ∷ l),
      )
  patch_pods-eq rs master l pods listed = rw listed (
      rw (
        for_each-emit (patch_pod k client master) (patches master) (patch_pod-emit master) pods
          (Command.list_pods component_redis ∷ l)))

  -- The whole reconciliation of labels, for the pods that are listed.
  reconcile_role_labels-eq :
      (rs : RedisSentinel) (l : Log) (pods : List Pod)
      → k.list_pods (Command.list_pods component_redis ∷ (master_pod_name k client rs l).1)
        ≡ inr pods
      → (master : Str) × ((master_pod_name k client rs l).0 ≡ Result.ok master)
        × (reconcile_role_labels k client rs l ≡ (
          Result.ok master,
          emit
              (flat_map (patches master) pods)
              (Command.list_pods component_redis ∷ (master_pod_name k client rs l).1),
        ))
  unfolding reconcile_role_labels
  reconcile_role_labels-eq rs l pods listed =
      let (master, found) = master_pod_name-ok rs l in
      (
        master,
        found,
        and_then-ok (master_pod_name k client rs l) _ master found
            ∙ patch_pods-eq rs master (master_pod_name k client rs l).1 pods listed,
      )

-- The role that a service selects.
abbrev pub selected_role : Service → Str
selected_role s = value_of role_label_key s.spec.selector

differs : {n master : Str} → str_eq n master ≡ false → n ≡ master → ⊥
differs {n} {master} e q = let same = (str_eq_iff n master).1 q in cc

role_for_iff :
    (rs : RedisSentinel) (master n : Str)
    → ((role_for master n ≡ selected_role (build_sentinel_master_service rs)) ↔ (n ≡ master))
      × ((role_for master n ≡ selected_role (build_sentinel_replica_service rs)) ↔ (n ≢ master))
unfolding build_sentinel_master_service build_sentinel_replica_service lookup str_eq
role_for_iff rs master n = elim (Bool-cases (str_eq n master)) [
  | inl e ↦
      rw e
        (let q = (str_eq_iff n master).0 e in ((λ _. q, λ _. refl), (λ x _. cc, λ x. absurd (x q))))
  | inr e ↦ rw e ((λ x. cc, λ q. absurd (differs e q)), (λ _ q. differs e q, λ _. refl))
]

-- Reconciling the labels succeeds with some master, and the pod, once the patches that were requested
-- are carried out, has the role that the service of the master selects just when it is that master,
-- and the role that the service of the replicas selects just when it is not.
abbrev pub IsServed : Kube → Option RedisClient → RedisSentinel → Log → Pod → Type 0
IsServed k client rs l p =
    (master : Str) × (es : List Command) × ((master_pod_name k client rs l).0 ≡ Result.ok master)
    × (reconcile_role_labels k client rs l ≡ (
      Result.ok master,
      emit es (Command.list_pods component_redis ∷ (master_pod_name k client rs l).1),
    ))
    × ((label_after p.name (value_of role_label_key p.labels) es
          ≡ selected_role (build_sentinel_master_service rs))
        ↔ (p.name ≡ master))
    × ((label_after p.name (value_of role_label_key p.labels) es
          ≡ selected_role (build_sentinel_replica_service rs))
        ↔ (p.name ≢ master))

module _ (k : Kube) (client : Option RedisClient) where
  -- If the pods of the servers can be listed, reconciling the role labels succeeds with some master, and
  -- any listed pod, once the patches that were requested are carried out, has the role that the service
  -- of the master selects just when it is that master, and else the role that the service of the
  -- replicas selects.
  pub reconcile_role_labels-IsServed :
      (rs : RedisSentinel) (l : Log) (xs ys : List Pod) (p : Pod)
      → k.list_pods (Command.list_pods component_redis ∷ (master_pod_name k client rs l).1)
        ≡ inr (xs ++ p ∷ ys)
      → IsServed k client rs l p
  reconcile_role_labels-IsServed rs l xs ys p listed =
      let (master, found, run) = reconcile_role_labels-eq k client rs l (xs ++ p ∷ ys) listed in
      let role = gets_role master xs ys p (value_of role_label_key p.labels) (inl refl) in
      let (to_master, to_replica) = role_for_iff rs master p.name in
      (
        master,
        flat_map (patches master) (xs ++ p ∷ ys),
        found,
        run,
        rw role to_master,
        rw role to_replica,
      )

-- Without a client, as main.go sets the controller up, and if the pods can be listed, the master is the
-- first pod: a listed pod, once the patches that were requested are carried out, has the role that the
-- service of the master selects just when it is the first one. Nothing is asked of the sentinels.
pub reconcile_role_labels_without_client :
    (k : Kube) (rs : RedisSentinel) (l : Log) (xs ys : List Pod) (p : Pod)
    → k.list_pods (Command.list_pods component_redis ∷ l) ≡ inr (xs ++ p ∷ ys)
    → (es : List Command) × (reconcile_role_labels k none rs l
        ≡ (Result.ok (rs.name ++ codes "-0"), emit es (Command.list_pods component_redis ∷ l)))
      × ((label_after p.name (value_of role_label_key p.labels) es
            ≡ selected_role (build_sentinel_master_service rs))
          ↔ (p.name ≡ rs.name ++ codes "-0"))
unfolding reconcile_role_labels master_pod_name
reconcile_role_labels_without_client k rs l xs ys p listed =
    let first = rs.name ++ codes "-0" in
    let role = gets_role first xs ys p (value_of role_label_key p.labels) (inl refl) in
    let (to_master, to_replica) = role_for_iff rs first p.name in
    (
      flat_map (patches first) (xs ++ p ∷ ys),
      patch_pods-eq k none rs first l (xs ++ p ∷ ys) listed,
      rw role to_master,
    )
