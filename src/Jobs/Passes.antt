-- ===== src/Jobs/Passes.antt =====
-- What a pass of the scheduler launches: theorems about `run_scheduler_cycle`.
use pure_hypervisor_integrat.Prelude.{
  ℕ, String, ◌≡◌, refl, sym, ap, ◌∙◌, subst, Bool, true, false, not, ◌&&◌, ◌||◌, ◌==◌, some, List,
  [], ◌∷◌, All, any, contains, lookup, Bool-cases, ◌⊎◌, inl, inr, eq_iff, arith,
}
use pure_hypervisor_integrat.Prelude.Dict.{lookup-assign}
use pure_hypervisor_integrat.Api.Groups.{Batch}
use pure_hypervisor_integrat.Jobs.Scheduler.{
  Scheduler, numbers_of, is_running, kick, is_ready, to_launch, kick_all, run_scheduler_cycle,
  Moves, idle_scheduler,
}
use pure_hypervisor_integrat.Jobs.Runners.{Alone, kick-launch, kick-same, kick-Alone, Moves-Alone}

-- the group has a live runner, the registered one
abbrev Lives : String → Scheduler → Type 0
Lives g s = (n : ℕ) × (numbers_of g s.live ≡ n ∷ []) × (lookup g s.active ≡ some n)

Lives-running : (g : String) (s : Scheduler) → Lives g s → is_running g s ≡ true
unfolding is_running
Lives-running g s (n, one, registered) = ground (arith, one, registered)

running-Lives : (g : String) (s : Scheduler) → Alone g s → is_running g s ≡ true → Lives g s
unfolding is_running
running-Lives g s (inr (n, one, registered, quiet)) q = (n, one, registered)
running-Lives g s (inl none_live) q = absurd (impossible q)
  where
    impossible : is_running g s ≡ true → ⊥
    impossible r = ground (arith, none_live, r)

kick-ended : (g : String) (s : Scheduler) → (kick g s).1.ended ≡ s.ended
unfolding kick
kick-ended g s = ground arith

kick-others :
    (g x : String) (s : Scheduler)
    → (g == x) ≡ false
    → numbers_of x ((kick g s).1.live) ≡ numbers_of x s.live
unfolding kick numbers_of
kick-others g x s other = ground (arith, other)

kick-Lives : (g : String) (s : Scheduler) → Alone g s → Lives g ((kick g s).1)
unfolding numbers_of
kick-Lives g s (inl none_live) =
    subst (λ r. Lives g (r.1)) (sym (kick-launch g s none_live))
      (
        s.next,
        rw ((eq_iff g g).1 refl, none_live) refl,
        lookup-assign g g s.next s.active ∙ rw ((eq_iff g g).1 refl) refl,
      )
kick-Lives g s (inr (n, one, registered, quiet)) =
    subst (λ r. Lives g (r.1)) (sym (kick-same g s n one registered)) (n, one, registered)

kick-stays : (g x : String) (s : Scheduler) → Alone g s → Lives x s → Lives x ((kick g s).1)
unfolding numbers_of
kick-stays g x s (inr (n, one, registered, quiet)) lives =
    subst (λ r. Lives x (r.1)) (sym (kick-same g s n one registered)) lives
kick-stays g x s (inl none_live) (n, one, registered) =
    let other : (g == x) ≡ false = apart (Bool-cases (g == x)) in
    subst (λ r. Lives x (r.1)) (sym (kick-launch g s none_live))
      (n, ground (arith, other, one), lookup-assign g x s.next s.active ∙ rw (other) registered)
  where
    apart : ((g == x) ≡ true) ⊎ ((g == x) ≡ false) → (g == x) ≡ false
    apart (inr other) = other
    apart (inl same) =
        let none_x = subst (λ y. numbers_of y s.live ≡ []) ((eq_iff g x).0 same) none_live in
        ground (arith, none_x, one)

kick_all-Lives :
    (ids : List String) (s : Scheduler) (x : String)
    → s.ended ≡ []
    → ((g : String) → Alone g s)
    → (contains x ids ≡ true) ⊎ Lives x s
    → Lives x ((kick_all ids s).1)
unfolding kick_all
kick_all-Lives [] s x quiet alone (inr lives) = lives
kick_all-Lives [] s x quiet alone (inl q) = absurd (ground (arith, q))
kick_all-Lives (g ∷ ids) s x quiet alone due =
    kick_all-Lives ids ((kick g s).1) x (kick-ended g s ∙ quiet)
      (λ y. kick-Alone g y s (ap (contains g) quiet) (alone g) (alone y)) (later due)
  where
    later :
        (contains x (g ∷ ids) ≡ true) ⊎ Lives x s → (contains x ids ≡ true) ⊎ Lives x ((kick g s).1)
    later (inr lives) = inr (kick-stays g x s (alone g) lives)
    later (inl q) = elim (Bool-cases (g == x)) [
      | inl same ↦
          inr (subst (λ y. Lives y ((kick g s).1)) ((eq_iff g x).0 same) (kick-Lives g s (alone g)))
      | inr other ↦ inl (ground (arith, q, other))
    ]

kick_all-others :
    (ids : List String) (s : Scheduler) (x : String)
    → contains x ids ≡ false
    → numbers_of x ((kick_all ids s).1.live) ≡ numbers_of x s.live
unfolding kick_all
kick_all-others [] s x q = refl
kick_all-others (g ∷ ids) s x q =
    kick_all-others ids ((kick g s).1) x (ground (arith, q)) ∙ kick-others g x s (ground (arith, q))

-- the group of a row is to be launched
abbrev pub is_due_row : ℕ → Scheduler → String → Batch → Bool
is_due_row now s x g = g.id == x && (is_ready now g && not (is_running g.id s))

contains-to_launch :
    (now : ℕ) (s : Scheduler) (x : String) (groups : List Batch)
    → contains x (to_launch now s groups) ≡ any (is_due_row now s x) groups
unfolding to_launch
contains-to_launch now s x [] = refl
contains-to_launch now s x (g ∷ groups) = ground (arith, contains-to_launch now s x groups)

-- every row that is ready, of those in a part of the table whose launches are among `ids`, is covered
ready_runs :
    (now : ℕ) (s : Scheduler) (ids : List String) (g : Batch)
    → s.ended ≡ []
    → ((x : String) → Alone x s)
    → ((is_ready now g && not (is_running g.id s)) ≡ true → contains g.id ids ≡ true)
    → (not (is_ready now g) || is_running g.id ((kick_all ids s).1)) ≡ true
ready_runs now s ids g quiet alone listed = elim (Bool-cases (is_ready now g)) [
  | inr idle ↦ rw (idle) refl
  | inl ready ↦
      let lives : Lives g.id ((kick_all ids s).1) =
        kick_all-Lives ids s g.id quiet alone (elim (Bool-cases (is_running g.id s)) [
          | inl running ↦ inr (running-Lives g.id s (alone g.id) running)
          | inr stopped ↦ inl (listed (rw (ready, stopped) refl))
        ]) in
      let runs = Lives-running g.id ((kick_all ids s).1) lives in ground (arith, runs)
]

ready_rows_run :
    (now : ℕ) (s : Scheduler) (groups rest : List Batch)
    → s.ended ≡ []
    → ((x : String) → Alone x s)
    → ((x : String) → any (is_due_row now s x) rest ≡ true → any (is_due_row now s x) groups ≡ true)
    → All
        (λ g.
          (not (is_ready now g) || is_running g.id ((kick_all (to_launch now s groups) s).1))
          ≡ true)
        rest
ready_rows_run now s groups [] quiet alone within = tt
ready_rows_run now s groups (g ∷ rest) quiet alone within = (
  ready_runs now s (to_launch now s groups) g quiet alone (λ due.
      contains-to_launch now s g.id groups
      ∙ within g.id (rw (due, (eq_iff g.id g.id).1 refl) refl)),
  ready_rows_run now s groups rest quiet alone (λ x later. within x (ground (arith, later))),
)

-- what a pass comes to: each row that was ready has a live runner, and a group's tasks are the same
-- unless it was due
abbrev pub Passed : ℕ → List Batch → Scheduler → Scheduler → Type 0
Passed now groups s s' =
    All (λ g. (not (is_ready now g) || is_running g.id s') ≡ true) groups
    × ((x : String)
        → (any (is_due_row now s x) groups ≡ true) ⊎ (numbers_of x s'.live ≡ numbers_of x s.live))

-- after a pass of the scheduler at a time when all done-callbacks have run, every group that was
-- pending or running, or was scheduled with its time come, has a live runner, and no other group's tasks
-- have changed
pub run_scheduler_cycle-Passed :
    {s : Scheduler}
    → Moves idle_scheduler s
    → s.ended ≡ []
    → (now : ℕ) (groups : List Batch) → Passed now groups s ((run_scheduler_cycle now groups s).1.1)
unfolding run_scheduler_cycle
run_scheduler_cycle-Passed {s} r quiet now groups = (
  ready_rows_run now s groups groups quiet (Moves-Alone r) (λ x due. due),
  λ x. elim (Bool-cases (any (is_due_row now s x) groups)) [
    | inl due ↦ inl due
    | inr idle ↦
        inr
          (kick_all-others (to_launch now s groups) s x (contains-to_launch now s x groups ∙ idle))
  ],
)
