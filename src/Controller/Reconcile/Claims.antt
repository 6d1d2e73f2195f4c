-- ===== src/Controller/Reconcile/Claims.antt =====
-- When a deletion gives up the finalizer.
use mathlib.Core.Path.{subst}
use kubernetes_redis_operato.Prelude.{
  Bool, true, false, ◌≡◌, refl, sym, ap, List, [], ◌∷◌, ◌++◌, ◌⊎◌, inl, inr, Option, none, some,
  Bool-cases, if◌then◌else◌,
}
use kubernetes_redis_operato.Go.Text.{Str}
use kubernetes_redis_operato.Go.Map.{Map}
use kubernetes_redis_operato.Api.Types.{StorageSpec}
use kubernetes_redis_operato.Redis.Effect.{Error, Result, Command, Log, pure, answer_cases, ◌>>◌}
use kubernetes_redis_operato.Controller.Kube.{Kube, Requeue}
use kubernetes_redis_operato.Controller.Reconcile.{
  delete_one, delete_all, delete_listed, unless_kept, finish_deletion,
}

-- The requests to delete the claims, the last of which is the newest.
abbrev pub deletions : List Str → Log → Log
deletions [] l = l
deletions (claim ∷ claims) l = deletions claims (Command.delete_claim claim ∷ l)

module _ (k : Kube) where
  -- The answer to the request to delete the claim is that it is deleted, or that there is none.
  abbrev pub Gone : Str → Log → Type 0
  Gone claim l =
      (k.delete_claim (Command.delete_claim claim ∷ l) ≡ inr tt)
      ⊎ ((e : Error) × (k.delete_claim (Command.delete_claim claim ∷ l) ≡ inl e)
          × (k.is_not_found e ≡ true))

  abbrev pub AllGone : List Str → Log → Type 0
  AllGone [] l = Unit
  AllGone (claim ∷ claims) l = Gone claim l × AllGone claims (Command.delete_claim claim ∷ l)

  -- All claims are deleted or gone, and the last request gives up the finalizer; or the requests end
  -- with the first one whose answer is another error, and the run with that error.
  abbrev pub GivesUpLast : List Str → Log → Result Requeue × Log → Type 0
  GivesUpLast claims l r =
      (AllGone claims l × (r.1 ≡ Command.update_object false ∷ deletions claims l))
      ⊎ ((e : Error) × (before : List Str) × (claim : Str) × (behind : List Str) × (claims
            ≡ before ++ claim ∷ behind)
          × AllGone before l
          × (k.delete_claim (Command.delete_claim claim ∷ deletions before l) ≡ inl e)
          × (k.is_not_found e ≡ false)
          × (r ≡ (Result.err e, Command.delete_claim claim ∷ deletions before l)))

module _ (k : Kube) where
  -- One claim: it is deleted or gone, or the run ends with the error.
  delete_one-cases :
      (claim : Str) (l : Log)
      → (Gone k claim l × (delete_one k claim l ≡ (Result.ok tt, Command.delete_claim claim ∷ l)))
        ⊎ ((e : Error) × (k.delete_claim (Command.delete_claim claim ∷ l) ≡ inl e)
            × (k.is_not_found e ≡ false)
            × (delete_one k claim l ≡ (Result.err e, Command.delete_claim claim ∷ l)))
  delete_one-cases claim l = elim (answer_cases (k.delete_claim (Command.delete_claim claim ∷ l))) [
    | inr (_, a) ↦ inl (inl a, rw a refl)
    | inl (e, a) ↦ elim (Bool-cases (k.is_not_found e)) [
      | inl g ↦ inl (inr (e, a, g), rw (a, g) refl)
      | inr g ↦ inr (e, a, g, rw (a, g) refl)
    ]
  ]

  -- The error of a claim that stands behind others.
  GivesUpLast-cons :
      (claim : Str) (claims : List Str) (l : Log) (r : Result Requeue × Log)
      → Gone k claim l
      → GivesUpLast k claims (Command.delete_claim claim ∷ l) r
      → GivesUpLast k (claim ∷ claims) l r
  GivesUpLast-cons claim claims l r g (inl h) = inl ((g, h.0), h.1)
  GivesUpLast-cons claim claims l r g (inr (e, before, x, behind, p, gone, q, is, end)) =
      inr (e, claim ∷ before, x, behind, ap (λ ys. claim ∷ ys) p, (g, gone), q, is, end)

  finish-log : (l : Log) → (finish_deletion k l).1 ≡ Command.update_object false ∷ l
  finish-log l = elim (answer_cases (k.update (Command.update_object false ∷ l))) [
    | inl (_, a) ↦ rw a
    | inr (_, a) ↦ rw a
  ]

  pub delete_all-GivesUpLast :
      (claims : List Str) (l : Log)
      → GivesUpLast k claims l ((delete_all k claims >> finish_deletion k) l)
  unfolding delete_all
  delete_all-GivesUpLast [] l = inl (tt, finish-log l)
  delete_all-GivesUpLast (claim ∷ claims) l = elim (delete_one-cases claim l) [
    | inl (g, a) ↦
        let run : (delete_all k (claim ∷ claims) >> finish_deletion k) l
            ≡ (delete_all k claims >> finish_deletion k) (Command.delete_claim claim ∷ l) =
          rw a refl in
        subst (λ r. GivesUpLast k (claim ∷ claims) l r) (sym run)
          (GivesUpLast-cons claim claims l _ g
            (delete_all-GivesUpLast claims (Command.delete_claim claim ∷ l)))
    | inr (e, p, g, a) ↦ inr (e, [], claim, claims, refl, tt, p, g, rw a refl)
  ]

-- What a deletion does about the claims with these labels, for an answer to the request to list them:
-- nothing without storage or where it is to be kept; nothing if they cannot be listed.
abbrev pub CleansListed : Kube → Map Str → Error ⊎ (List Str) → Log → Result Requeue × Log → Type 0
CleansListed k labels (inl e) l r =
    r.1 ≡ Command.update_object false ∷ Command.list_claims labels ∷ l
CleansListed k labels (inr claims) l r = GivesUpLast k claims (Command.list_claims labels ∷ l) r

abbrev pub CleansUnless :
    Kube → Bool → Map Str → Error ⊎ (List Str) → Log → Result Requeue × Log → Type 0
CleansUnless k true labels answer l r = r.1 ≡ Command.update_object false ∷ l
CleansUnless k false labels answer l r = CleansListed k labels answer l r

abbrev pub Cleans :
    Kube → Option StorageSpec → Map Str → Error ⊎ (List Str) → Log → Result Requeue × Log → Type 0
Cleans k none labels answer l r = r.1 ≡ Command.update_object false ∷ l
Cleans k (some s) labels answer l r = CleansUnless k s.keep_after_deletion labels answer l r

module _ (k : Kube) (labels : Map Str) where
  delete_listed-CleansListed :
      (l : Log) (answer : Error ⊎ (List Str))
      → k.list_claims (Command.list_claims labels ∷ l) ≡ answer
      → CleansListed k labels answer l ((delete_listed k labels >> finish_deletion k) l)
  unfolding delete_listed
  delete_listed-CleansListed l (inl e) a = rw a (finish-log k (Command.list_claims labels ∷ l))
  delete_listed-CleansListed l (inr claims) a =
      rw a (delete_all-GivesUpLast k claims (Command.list_claims labels ∷ l))

  keep-CleansUnless :
      (keep : Bool) (l : Log)
      → CleansUnless k keep labels
          (k.list_claims (Command.list_claims labels ∷ l))
          l
          (((if keep then pure tt else delete_listed k labels) >> finish_deletion k) l)
  keep-CleansUnless true l = finish-log k l
  keep-CleansUnless false l = delete_listed-CleansListed l _ refl

  pub unless_kept-Cleans :
      (storage : Option StorageSpec) (l : Log)
      → Cleans k storage labels
          (k.list_claims (Command.list_claims labels ∷ l))
          l
          ((unless_kept k storage (delete_listed k labels) >> finish_deletion k) l)
  unless_kept-Cleans none l = finish-log k l
  unless_kept-Cleans (some s) l = keep-CleansUnless s.keep_after_deletion l
