-- ===== src/Group/Reach.antt =====
-- The runs of a group of migrations, and what the steps do to sums and properties of the members.
use pure_hypervisor_integrat.Prelude.{
  ℕ, ◌+◌, ◌-◌, ◌≡◌, Bool, true, false, arith, List, [], ◌∷◌, All,
}
use pure_hypervisor_integrat.Group.Runner.{
  Member, Task, waiting, asking, skipping, launching, polling, finished, lost, at_end, Runner,
  Change, here, there, Step,
}

-- `t` comes after any number of steps from `r`, in any order of the coroutines
pub data Reach (r : Runner) : Runner → Type 0 where
  begin : Reach r r
  next : {s t : Runner} → Reach r s → Step s t → Reach r t

-- the sum of the weights of the coroutines
unfoldable pub weigh : (Task → ℕ) → List (Member × Task) → ℕ
weigh w [] = 0
weigh w (u ∷ us) = w u.1 + weigh w us

pub weigh-Change :
    (w : Task → ℕ) {u v : Member × Task} {us vs : List (Member × Task)}
    → Change u v us vs
    → weigh w us + w v.1 ≡ weigh w vs + w u.1
unfolding weigh
weigh-Change w here = omega arith
weigh-Change w (there c) = let rest = weigh-Change w c in omega arith

pub All-Change :
    (P : Member × Task → Type 0) {u v : Member × Task} {us vs : List (Member × Task)}
    → Change u v us vs
    → P v
    → All P us
    → All P vs
All-Change P here p all = (p, all.1)
All-Change P (there c) p all = (all.0, All-Change P c p all.1)

-- a member in the place that a coroutine holds
pub data At (u : Member × Task) : List (Member × Task) → Type 0 where
  first : {us : List (Member × Task)} → At u (u ∷ us)
  further : {x : Member × Task} {us : List (Member × Task)} → At u us → At u (x ∷ us)

-- a unit can be replaced by any other
pub replace :
    {u : Member × Task} {us : List (Member × Task)} (v : Member × Task)
    → At u us
    → (vs : List (Member × Task)) × Change u v us vs
replace v first = (_, here)
replace v (further a) = let (vs, c) = replace v a in (_, there c)

-- A coroutine that holds a place of the semaphore
abbrev pub holds : Task → ℕ
holds waiting = 0
holds asking = 1
holds skipping = 1
holds launching = 1
holds (polling waited) = 1
holds finished = 0
holds lost = 0

-- a bound of the steps that a coroutine may still make: a poll adds to the time waited
abbrev pub ahead : Task → ℕ
ahead waiting = 7209
ahead asking = 7208
ahead skipping = 1
ahead launching = 7207
ahead (polling waited) = 1 + (7205 - waited)
ahead finished = 0
ahead lost = 0

-- the coroutines that have a migration in flight or may still launch one
abbrev pub may_launch : Task → ℕ
may_launch waiting = 0
may_launch asking = 1
may_launch skipping = 0
may_launch launching = 1
may_launch (polling waited) = 1
may_launch finished = 0
may_launch lost = 0

-- the end of a coroutine, whether its last write was saved or not, has no weight
pub at_end_weightless :
    (w : Task → ℕ) (saved : Bool) → w finished ≡ 0 → w lost ≡ 0 → w (at_end saved) ≡ 0
at_end_weightless w true q r = q
at_end_weightless w false q r = r
