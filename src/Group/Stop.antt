-- ===== src/Group/Stop.antt =====
-- What a failure and a cancellation do to a group, and the final status: theorems about
-- `run_migration_group`.
use pure_hypervisor_integrat.Prelude.{
  String, ◌≡◌, refl, sym, ap, ◌∙◌, ◌↔◌, Bool, true, false, ◌==◌, arith, ◌&&◌, eq_iff, subst,
  if◌then◌else◌, List, [], ◌∷◌, All, all, inl, inr, Bool-cases,
}
use pure_hypervisor_integrat.Group.Runner.{
  Runner, Step, enter, ask, unanswered, skip, launch, refuse, look_again, finish, crash, time_out,
  cancel, aggregate,
}
use pure_hypervisor_integrat.Group.Reach.{Reach, weigh, may_launch}

-- after the stop flag is set, no coroutine has a migration in flight or may still launch one
abbrev pub Halted : Runner → Type 0
Halted r = r.stop ≡ true → weigh may_launch r.units ≡ 0

-- a step at which a member's coroutine ends, its migration not launched, timed out, lost sight of by an
-- exception, or over with another status than "succeeded"
abbrev pub Fails : {r s : Runner} → Step r s → Type 0
Fails (enter m vs free c) = ⊥
Fails (ask m vs c) = ⊥
Fails (unanswered m vs c) = ⊥
Fails (skip m saved vs c) = ⊥
Fails (launch m migration job saved vs c) = ⊥
Fails (refuse m error saved vs c) = Unit
Fails (look_again m waited vs early c) = ⊥
Fails (finish m waited st err saved vs early over c) = (st == "succeeded") ≡ false
Fails (crash m waited error saved vs early c) = Unit
Fails (time_out m waited saved vs late c) = Unit
Fails (cancel live) = ⊥

all_split :
    (p : String → Bool) (x : String) (xs : List String)
    → all p (x ∷ xs) ≡ true
    → (p x ≡ true) × (all p xs ≡ true)
all_split p x xs q = elim (Bool-cases (p x)) [
  | inl good ↦ (good, subst (λ b. (b && all p xs) ≡ true) good q)
  | inr bad ↦ let wrong : false ≡ true = subst (λ b. (b && all p xs) ≡ true) bad q in ground arith
]

all_succeeded :
    (sts : List String) → all (λ x. x == "succeeded") sts ≡ true → All (λ x. x ≡ "succeeded") sts
all_succeeded [] q = tt
all_succeeded (x ∷ xs) q =
    let (one, rest) = all_split (λ y. y == "succeeded") x xs q in
    ((eq_iff x "succeeded").0 one, all_succeeded xs rest)

succeeded_all :
    (sts : List String) → All (λ x. x ≡ "succeeded") sts → all (λ x. x == "succeeded") sts ≡ true
succeeded_all [] q = refl
succeeded_all (x ∷ xs) q =
    let rest = succeeded_all xs q.1 in
    subst (λ b. (b && all (λ y. y == "succeeded") xs) ≡ true) (sym ((eq_iff x "succeeded").1 q.0))
      rest

aggregate_split :
    (b d : Bool) (word : String)
    → word ≡ (if b then "succeeded" else (if d then "failed" else "partial"))
    → word ≡ "succeeded"
    → b ≡ true
aggregate_split true d word q good = refl
aggregate_split false true word q good =
    let wrong : false ≡ true = ap (λ x. x == "succeeded") (sym q ∙ good) in ground arith
aggregate_split false false word q good =
    let wrong : false ≡ true = ap (λ x. x == "succeeded") (sym q ∙ good) in ground arith

-- A group with a member that was not cancelled ends as "succeeded" exactly if all its members have
-- succeeded.
pub aggregate-succeeded :
    (st : String) (sts : List String)
    → (aggregate (st ∷ sts) ≡ "succeeded") ↔ All (λ x. x ≡ "succeeded") (st ∷ sts)
unfolding aggregate
aggregate-succeeded st sts = (
  λ q.
      all_succeeded (st ∷ sts)
        (aggregate_split (all (λ x. x == "succeeded") (st ∷ sts)) _ _ refl q),
  λ good. rw (succeeded_all (st ∷ sts) good) refl,
)
