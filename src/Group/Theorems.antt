-- ===== src/Group/Theorems.antt =====
-- The theorems about `run_migration_group`, for all interleavings of the members' coroutines.
use pure_hypervisor_integrat.Prelude.{
  ℕ, ◌+◌, ◌<◌, ◌≤◌, max, ◌≡◌, refl, ◌∙◌, Bool, true, false, ◌==◌, arith, if◌then◌else◌, none, List,
  [], ◌∷◌, map,
}
use pure_hypervisor_integrat.Group.Runner.{
  Member, Task, waiting, asking, skipping, launching, polling, finished, Runner, places, initial,
  terminal, already_finished, begun, Step, enter, ask, unanswered, skip, launch, refuse, look_again,
  finish, crash, time_out, cancel,
}
use pure_hypervisor_integrat.Group.Reach.{
  Reach, begin, next, weigh, weigh-Change, holds, ahead, at_end_weightless,
}

holds-entered : (b : Bool) → holds (if b then skipping else asking) ≡ 1
holds-entered true = refl
holds-entered false = refl

holds-answered : (b : Bool) → holds (if b then skipping else launching) ≡ 1
holds-answered true = refl
holds-answered false = refl

-- no step makes or loses a place of the semaphore
pub Step-balance :
    {r s : Runner} → Step r s → weigh holds s.units + s.slots ≡ weigh holds r.units + r.slots
Step-balance {r} (enter m vs free c) =
    let moved = weigh-Change holds c in let one = holds-entered r.stop in omega arith
Step-balance {r} (ask m vs c) =
    let moved = weigh-Change holds c in
    let one = holds-answered (r.status == "canceled") in omega arith
Step-balance (unanswered m vs c) = let moved = weigh-Change holds c in omega arith
Step-balance (skip m saved vs c) =
    let moved = weigh-Change holds c in
    let none = at_end_weightless holds saved refl refl in omega arith
Step-balance (launch m migration job saved vs c) = let moved = weigh-Change holds c in omega arith
Step-balance (refuse m error saved vs c) =
    let moved = weigh-Change holds c in
    let none = at_end_weightless holds saved refl refl in omega arith
Step-balance (look_again m waited vs early c) = let moved = weigh-Change holds c in omega arith
Step-balance (finish m waited st err saved vs early over c) =
    let moved = weigh-Change holds c in
    let none = at_end_weightless holds saved refl refl in omega arith
Step-balance (crash m waited error saved vs early c) =
    let moved = weigh-Change holds c in
    let none = at_end_weightless holds saved refl refl in omega arith
Step-balance (time_out m waited saved vs late c) =
    let moved = weigh-Change holds c in
    let none = at_end_weightless holds saved refl refl in omega arith
Step-balance (cancel live) = refl

pub Reach-balance :
    {r t : Runner} → Reach r t → weigh holds t.units + t.slots ≡ weigh holds r.units + r.slots
Reach-balance begin = refl
Reach-balance (next before step) = Step-balance step ∙ Reach-balance before

holds-initial : (b : Bool) → holds (if b then finished else waiting) ≡ 0
holds-initial true = refl
holds-initial false = refl

weigh-initial : (members : List Member) → weigh holds (map initial members) ≡ 0
unfolding weigh
weigh-initial [] = refl
weigh-initial (m ∷ members) =
    let one = holds-initial (terminal m) in let rest = weigh-initial members in omega arith

pub begun-balance :
    {t : Runner} (concurrency : ℕ) (continue_on_error : Bool) (members : List Member)
    → Reach (begun concurrency continue_on_error members) t
    → weigh holds t.units + t.slots ≡ places concurrency
unfolding begun
begun-balance concurrency continue_on_error members run =
    let none_held = weigh-initial members in let same = Reach-balance run in omega arith

-- However the coroutines of a group are interleaved, at most `max(1, concurrency)` of them are past the
-- semaphore at the same time.
pub Reach-bounded :
    (concurrency : ℕ) (continue_on_error : Bool) (members : List Member) (t : Runner)
    → Reach (begun concurrency continue_on_error members) t
    → weigh holds t.units ≤ max 1 concurrency
Reach-bounded concurrency continue_on_error members t run =
    let same = begun-balance concurrency continue_on_error members run in omega arith

-- what bounds the steps that a run can still make
unfoldable pub remaining : Runner → ℕ
remaining r = weigh ahead r.units + (if already_finished r.status then 0 else 1)

ahead-entered : (b : Bool) → ahead (if b then skipping else asking) ≤ 7208
ahead-entered true = omega arith
ahead-entered false = omega arith

ahead-answered : (b : Bool) → ahead (if b then skipping else launching) ≤ 7207
ahead-answered true = omega arith
ahead-answered false = omega arith

-- Every step of a group's run, a cancellation and each round of a polling loop included, leaves fewer
-- steps to be made, so that no interleaving of its coroutines goes on for ever, also if a migration
-- is never over.
pub Step-remaining : (r s : Runner) → Step r s → remaining s < remaining r
unfolding remaining
Step-remaining r _ (enter m vs free c) =
    let moved = weigh-Change ahead c in let less = ahead-entered r.stop in omega arith
Step-remaining r _ (ask m vs c) =
    let moved = weigh-Change ahead c in
    let less = ahead-answered (r.status == "canceled") in omega arith
Step-remaining r _ (unanswered m vs c) = let moved = weigh-Change ahead c in omega arith
Step-remaining r _ (skip m saved vs c) =
    let moved = weigh-Change ahead c in
    let none = at_end_weightless ahead saved refl refl in omega arith
Step-remaining r _ (launch m migration job saved vs c) =
    let moved = weigh-Change ahead c in omega arith
Step-remaining r _ (refuse m error saved vs c) =
    let moved = weigh-Change ahead c in
    let none = at_end_weightless ahead saved refl refl in omega arith
Step-remaining r _ (look_again m waited vs early c) =
    let moved = weigh-Change ahead c in omega arith
Step-remaining r _ (finish m waited st err saved vs early over c) =
    let moved = weigh-Change ahead c in
    let none = at_end_weightless ahead saved refl refl in omega arith
Step-remaining r _ (crash m waited error saved vs early c) =
    let moved = weigh-Change ahead c in
    let none = at_end_weightless ahead saved refl refl in omega arith
Step-remaining r _ (time_out m waited saved vs late c) =
    let moved = weigh-Change ahead c in
    let none = at_end_weightless ahead saved refl refl in omega arith
Step-remaining r _ (cancel live) = rw live omega arith

-- a coroutine that is past the semaphore and not at its end
pub data Busy : Task → Type 0 where
  busy_asking : Busy asking
  busy_skipping : Busy skipping
  busy_launching : Busy launching
  busy_polling : (waited : ℕ) → Busy (polling waited)
