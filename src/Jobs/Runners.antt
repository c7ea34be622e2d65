-- ===== src/Jobs/Runners.antt =====
-- One runner of a group at a time, and what a pass launches: theorems about
-- backend/phif/jobs/scheduler.py.
use pure_hypervisor_integrat.Prelude.{
  ℕ, ◌≤◌, String, ◌≡◌, refl, sym, ap, ◌∙◌, subst, true, false, not, ◌||◌, ◌==◌, eqb, some, List, [],
  ◌∷◌, ◌++◌, any, contains, select, length, lookup, if◌then◌else◌, Bool-cases, ◌⊎◌, ◌↔◌, inl, inr,
  eq_iff, arith,
}
use pure_hypervisor_integrat.Prelude.Dict.{erase, lookup-assign, lookup-erase}
use pure_hypervisor_integrat.Jobs.Scheduler.{
  RunnerTask, Scheduler, numbers_of, is_running, launch, kick, without, end_task, kicks, ends,
  calls_back, Moves, at_start, then_move, idle_scheduler,
}

-- a group has no live runner, or just the one that is registered, and no done-callback of it waits then
abbrev pub Alone : String → Scheduler → Type 0
Alone g s =
    (numbers_of g s.live ≡ [])
    ⊎ ((n : ℕ) × (numbers_of g s.live ≡ n ∷ [])
        × (lookup g s.active ≡ some n)
        × (contains g s.ended ≡ false))

-- the numbers that are not `n`
abbrev others : ℕ → List ℕ → List ℕ
others n = select (λ m. not (eqb m n))

numbers_of-without :
    (g : String) (t : RunnerTask) (live : List RunnerTask)
    → numbers_of g (without t live)
      ≡ (if t.group == g then others t.number (numbers_of g live) else numbers_of g live)
unfolding numbers_of without
numbers_of-without g t [] = ground arith
numbers_of-without g t (u ∷ live) =
    ground (
      arith,
      eq_iff u.group t.group,
      eq_iff u.group g,
      eq_iff t.group g,
      numbers_of-without g t live,
    )

contains-append :
    (x y : String) (xs : List String) → contains x (xs ++ (y ∷ [])) ≡ (contains x xs || y == x)
contains-append x y [] = ground arith
contains-append x y (z ∷ xs) = ground (arith, contains-append x y xs)

pub kick-launch :
    (g : String) (s : Scheduler) → numbers_of g s.live ≡ [] → kick g s ≡ (true, launch g s)
unfolding kick is_running
kick-launch g s none_live = ground (arith, none_live)

pub kick-same :
    (g : String) (s : Scheduler) (n : ℕ)
    → numbers_of g s.live ≡ n ∷ []
    → lookup g s.active ≡ some n
    → kick g s ≡ (false, s)
unfolding kick is_running
kick-same g s n one registered = ground (arith, one, registered)

launch-Alone :
    (g x : String) (s : Scheduler)
    → contains g s.ended ≡ false
    → numbers_of g s.live ≡ []
    → Alone x s
    → Alone x (launch g s)
unfolding numbers_of
launch-Alone g x s quiet none_live at_x = elim (Bool-cases (g == x)) [
  | inl same ↦
      let e = (eq_iff g x).0 same in
      let quiet_x : contains x s.ended ≡ false = subst (λ y. contains y s.ended ≡ false) e quiet in
      let none_x : numbers_of x s.live ≡ [] = subst (λ y. numbers_of y s.live ≡ []) e none_live in
      inr (
        s.next,
        ground (arith, same, none_x),
        lookup-assign g x s.next s.active ∙ rw (same) refl,
        quiet_x,
      )
  | inr other ↦ elim at_x [
    | inl none_x ↦ inl (ground (arith, other, none_x))
    | inr (n, one, registered, quiet_x) ↦ inr (
      n,
      ground (arith, other, one),
      lookup-assign g x s.next s.active ∙ rw (other) registered,
      quiet_x,
    )
  ]
]

pub kick-Alone :
    (g x : String) (s : Scheduler)
    → contains g s.ended ≡ false
    → Alone g s
    → Alone x s
    → Alone x ((kick g s).1)
kick-Alone g x s quiet (inl none_live) at_x =
    subst (λ r. Alone x (r.1)) (sym (kick-launch g s none_live))
      (launch-Alone g x s quiet none_live at_x)
kick-Alone g x s quiet (inr (n, one, registered, q)) at_x =
    subst (λ r. Alone x (r.1)) (sym (kick-same g s n one registered)) at_x

end_task-Alone :
    (t : RunnerTask) (x : String) (s : Scheduler)
    → any (eqb t.number) (numbers_of t.group s.live) ≡ true
    → Alone t.group s
    → Alone x s
    → Alone x (end_task t s)
end_task-Alone t x s live at_t (inl none_live) =
    inl (ground (arith, none_live, numbers_of-without x t s.live))
end_task-Alone t x s live at_t (inr (n, one, registered, quiet)) =
    elim (Bool-cases (t.group == x)) [
      | inl same ↦
          let live_x : any (eqb t.number) (numbers_of x s.live) ≡ true =
            subst (λ y. any (eqb t.number) (numbers_of y s.live) ≡ true) ((eq_iff t.group x).0 same)
              live in
          inl (ground (arith, one, same, live_x, numbers_of-without x t s.live))
      | inr other ↦ inr (
        n,
        ground (arith, one, other, numbers_of-without x t s.live),
        registered,
        ground (arith, quiet, other, contains-append x t.group s.ended),
      )
    ]

callback-Alone :
    (g x : String) (rest : List String) (s : Scheduler)
    → s.ended ≡ g ∷ rest
    → Alone x s
    → Alone x (record s { active = erase g s.active; ended = rest })
callback-Alone g x rest s q (inl none_live) = inl none_live
callback-Alone g x rest s q (inr (n, one, registered, quiet)) =
    let both : (g == x || contains x rest) ≡ false = sym (ap (contains x) q) ∙ quiet in
    let apart : (g == x) ≡ false = ground (arith, both) in
    let left : contains x rest ≡ false = ground (arith, both) in
    inr (n, one, lookup-erase g x s.active ∙ rw (apart) registered, left)

pub Moves-Alone : {s : Scheduler} → Moves idle_scheduler s → (x : String) → Alone x s
unfolding numbers_of
Moves-Alone at_start x = inl refl
Moves-Alone (then_move {u} r (kicks g quiet)) x =
    kick-Alone g x u quiet (Moves-Alone r g) (Moves-Alone r x)
Moves-Alone (then_move {u} r (ends t live)) x =
    end_task-Alone t x u live (Moves-Alone r t.group) (Moves-Alone r x)
Moves-Alone (then_move {u} r (calls_back g rest q)) x =
    callback-Alone g x rest u q (Moves-Alone r x)

-- a runner of the group is launched by every kick that comes when none is live, and by no other
abbrev pub KickFits : String → Scheduler → Type 0
KickFits g s =
    (length (numbers_of g s.live) ≤ 1) × (((kick g s).0 ≡ true) ↔ (numbers_of g s.live ≡ []))

-- whatever is kicked, by requests or by the passes of the scheduler, and whenever tasks end, as long as
-- no group is kicked between the end of one of its tasks and that task's done-callback: no group has
-- more than one live runner, and a kick launches one exactly if the group has none
pub Moves-KickFits : {s : Scheduler} → Moves idle_scheduler s → (g : String) → KickFits g s
Moves-KickFits {s} r g = fits (Moves-Alone r g)
  where
    fits : Alone g s → KickFits g s
    fits (inl none_live) = (
      ground (arith, none_live),
      (λ _. none_live, λ _. ap (λ k. k.0) (kick-launch g s none_live)),
    )
    fits (inr (n, one, registered, quiet)) = (
      ground (arith, one),
      (λ q. ground (arith, q, kick-same g s n one registered), λ q. ground (arith, q, one)),
    )
