-- ===== src/Group/Fixed.antt =====
-- What a group's run never touches: a theorem about `run_migration_group`, for all interleavings of the
-- members' coroutines.
use pure_hypervisor_integrat.Prelude.{◌≡◌, ◌≢◌, refl, ap, true, arith, List, [], ◌∷◌}
use pure_hypervisor_integrat.Group.Runner.{
  Member, Task, waiting, asking, skipping, launching, polling, finished, lost, Runner, terminal,
  Change, here, there, Step, enter, ask, unanswered, skip, launch, refuse, look_again, finish,
  crash, time_out, cancel,
}
use pure_hypervisor_integrat.Group.Reach.{Reach, begin, next, ahead}

-- what becomes of a unit whose coroutine is at its end: nothing
abbrev pub Fixed : Member × Task → Member × Task → Type 0
Fixed (m, waiting) v = Unit
Fixed (m, asking) v = Unit
Fixed (m, skipping) v = Unit
Fixed (m, launching) v = Unit
Fixed (m, polling waited) v = Unit
Fixed (m, finished) v = v ≡ (m, finished)
Fixed (m, lost) v = v ≡ (m, lost)

-- the same for the units of two lists, in their order
abbrev pub AllFixed : List (Member × Task) → List (Member × Task) → Type 0
AllFixed [] [] = Unit
AllFixed [] (v ∷ vs) = ⊥
AllFixed (u ∷ us) [] = ⊥
AllFixed (u ∷ us) (v ∷ vs) = Fixed u v × AllFixed us vs

module _ {a b : Member × Task} where
  -- a step of a coroutine that is not at its end leaves the finished ones as they are
  Change-AllFixed :
      (us : List (Member × Task)) {vs ws : List (Member × Task)}
      → ((u : Member × Task) → Fixed u a → Fixed u b)
      → AllFixed us vs
      → Change a b vs ws
      → AllFixed us ws
  Change-AllFixed [] move same here = elim same [ ]
  Change-AllFixed [] move same (there c) = elim same [ ]
  Change-AllFixed (u ∷ us) move same here = (move u same.0, same.1)
  Change-AllFixed (u ∷ us) move same (there c) = (same.0, Change-AllFixed us move same.1 c)

-- a coroutine at its end is not the one that moves
Fixed-moves :
    (m : Member) (k : Task) (b : Member × Task)
    → ahead k ≢ 0
    → (u : Member × Task) → Fixed u (m, k)
    → Fixed u b
Fixed-moves m k b busy (n, waiting) same = tt
Fixed-moves m k b busy (n, asking) same = tt
Fixed-moves m k b busy (n, skipping) same = tt
Fixed-moves m k b busy (n, launching) same = tt
Fixed-moves m k b busy (n, polling waited) same = tt
Fixed-moves m k b busy (n, finished) same = elim (busy (ap (λ u. ahead u.1) same)) [ ]
Fixed-moves m k b busy (n, lost) same = elim (busy (ap (λ u. ahead u.1) same)) [ ]

Step-AllFixed :
    (us : List (Member × Task)) {r s : Runner}
    → Step r s
    → AllFixed us r.units
    → AllFixed us s.units
Step-AllFixed us (enter m vs free c) same =
    Change-AllFixed us (Fixed-moves m waiting _ (omega arith)) same c
Step-AllFixed us (ask m vs c) same =
    Change-AllFixed us (Fixed-moves m asking _ (omega arith)) same c
Step-AllFixed us (unanswered m vs c) same =
    Change-AllFixed us (Fixed-moves m asking _ (omega arith)) same c
Step-AllFixed us (skip m saved vs c) same =
    Change-AllFixed us (Fixed-moves m skipping _ (omega arith)) same c
Step-AllFixed us (launch m migration job saved vs c) same =
    Change-AllFixed us (Fixed-moves m launching _ (omega arith)) same c
Step-AllFixed us (refuse m error saved vs c) same =
    Change-AllFixed us (Fixed-moves m launching _ (omega arith)) same c
Step-AllFixed us (look_again m waited vs early c) same =
    Change-AllFixed us (Fixed-moves m (polling waited) _ (omega arith)) same c
Step-AllFixed us (finish m waited st err saved vs early over c) same =
    Change-AllFixed us (Fixed-moves m (polling waited) _ (omega arith)) same c
Step-AllFixed us (crash m waited error saved vs early c) same =
    Change-AllFixed us (Fixed-moves m (polling waited) _ (omega arith)) same c
Step-AllFixed us (time_out m waited saved vs late c) same =
    Change-AllFixed us (Fixed-moves m (polling waited) _ (omega arith)) same c
Step-AllFixed us (cancel live) same = same

Fixed-self : (u : Member × Task) → Fixed u u
Fixed-self (n, waiting) = tt
Fixed-self (n, asking) = tt
Fixed-self (n, skipping) = tt
Fixed-self (n, launching) = tt
Fixed-self (n, polling waited) = tt
Fixed-self (n, finished) = refl
Fixed-self (n, lost) = refl

AllFixed-self : (us : List (Member × Task)) → AllFixed us us
AllFixed-self [] = tt
AllFixed-self (u ∷ us) = (Fixed-self u, AllFixed-self us)

-- a coroutine that has come to its end stays there, with what it wrote of its member
pub Reach-stays : (r t : Runner) → Reach r t → AllFixed r.units t.units
Reach-stays r _ begin = AllFixed-self r.units
Reach-stays r _ (next before step) = Step-AllFixed r.units step (Reach-stays r _ before)

-- the members that were terminal have their entries as they were, and no coroutine to run
abbrev pub Untouched : List Member → List (Member × Task) → Type 0
Untouched [] [] = Unit
Untouched [] (v ∷ vs) = ⊥
Untouched (m ∷ ms) [] = ⊥
Untouched (m ∷ ms) (v ∷ vs) = (terminal m ≡ true → v ≡ (m, finished)) × Untouched ms vs
