-- ===== src/Jobs/Scheduler.antt =====
-- backend/phif/jobs/scheduler.py: `kick` and `run_scheduler_cycle`, with the tasks that they start. A
-- task is known by a number. The done-callback of a task that has ended is a step of its own, since the
-- event loop runs it later. A time is a number of seconds.
use pure_hypervisor_integrat.Prelude.{
  ℕ, suc, String, Bool, true, false, not, ◌&&◌, ◌||◌, ◌==◌, eqb, leb, Option, none, some, List, [],
  ◌∷◌, ◌++◌, ◌≡◌, map, any, contains, lookup, if◌then◌else◌,
}
use pure_hypervisor_integrat.Prelude.Dict.{assign, erase}
use pure_hypervisor_integrat.Api.Groups.{Batch}

-- a runner: the number of its task, and its group
pub record RunnerTask : Type 0 where
  pub number : ℕ
  pub group : String

-- `_active`, the tasks that are not done, the groups whose done-callbacks are still to run, and the
-- number of the next task
pub record Scheduler : Type 0 where
  pub active : List (String × ℕ)
  pub live : List RunnerTask
  pub ended : List String
  pub next : ℕ

-- the numbers of a group's tasks that are not done
unfoldable pub numbers_of : String → List RunnerTask → List ℕ
numbers_of g [] = []
numbers_of g (t ∷ live) =
    let rest = numbers_of g live in if t.group == g then t.number ∷ rest else rest

-- `group_id in _active and not _active[group_id].done()`
unfoldable pub is_running : String → Scheduler → Bool
is_running g s = elim (lookup g s.active) [
  | none ↦ false
  | some n ↦ any (eqb n) (numbers_of g s.live)
]

-- the launch of a runner
abbrev pub launch : String → Scheduler → Scheduler
launch g s = record s {
  active = assign g s.next s.active;
  live = (record { number = s.next; group = g }) ∷ s.live;
  next = suc s.next;
}

-- `kick`
unfoldable pub kick : String → Scheduler → Bool × Scheduler
kick g s = if is_running g s then (false, s) else (true, launch g s)

-- the list without the task
unfoldable pub without : RunnerTask → List RunnerTask → List RunnerTask
without t [] = []
without t (u ∷ live) =
    let rest = without t live in
    if eqb u.number t.number && u.group == t.group then rest else u ∷ rest

-- a task ends; its done-callback is put at the end of the loop's queue
abbrev pub end_task : RunnerTask → Scheduler → Scheduler
end_task t s = record s { live = without t s.live; ended = s.ended ++ (t.group ∷ []) }

-- the query for groups, `MigrationGroup.status.in_(…)`
abbrev pub is_open : Batch → Bool
is_open g = contains g.status ("scheduled" ∷ "pending" ∷ "running" ∷ [])

-- not `g.scheduled_at is None or _aware(g.scheduled_at) > now`
abbrev pub time_has_come : ℕ → Option ℕ → Bool
time_has_come now none = false
time_has_come now (some at) = leb at now

-- whether a group without a live runner is launched
abbrev pub is_ready : ℕ → Batch → Bool
is_ready now g = is_open g && (not (g.status == "scheduled") || time_has_come now g.scheduled_at)

-- what the loop over the rows makes of a row
abbrev pub prepared : ℕ → Scheduler → Batch → Batch
prepared now s g =
    if is_ready now g && (not (is_running g.id s) && g.status == "scheduled")
    then record g { status = "pending" }
    else g

-- `to_launch`
unfoldable pub to_launch : ℕ → Scheduler → List Batch → List String
to_launch now s [] = []
to_launch now s (g ∷ groups) =
    let rest = to_launch now s groups in
    if is_ready now g && not (is_running g.id s) then g.id ∷ rest else rest

-- the kicks of a pass, and how many of them launched a runner
unfoldable pub kick_all : List String → Scheduler → ℕ × Scheduler
kick_all [] s = (0, s)
kick_all (g ∷ ids) s =
    let (started, s') = kick g s in
    let (n, s'') = kick_all ids s' in ((if started then suc n else n), s'')

-- `run_scheduler_cycle`: the rows and the tasks after it, and what it returns
unfoldable pub run_scheduler_cycle : ℕ → List Batch → Scheduler → List Batch × (ℕ × Scheduler)
run_scheduler_cycle now groups s =
    (map (prepared now s) groups, kick_all (to_launch now s groups) s)

-- What can happen: a kick of a group none of whose done-callbacks is waiting, the end of a task that is
-- not done, or the done-callback that waits longest.
pub data Move (s : Scheduler) : Scheduler → Type 0 where
  kicks : (g : String) → contains g s.ended ≡ false → Move s ((kick g s).1)
  ends :
      (t : RunnerTask)
      → any (eqb t.number) (numbers_of t.group s.live) ≡ true
      → Move s (end_task t s)
  calls_back :
      (g : String) (rest : List String)
      → s.ended ≡ g ∷ rest
      → Move s (record s { active = erase g s.active; ended = rest })

pub data Moves (s : Scheduler) : Scheduler → Type 0 where
  at_start : Moves s s
  then_move : {u v : Scheduler} → Moves s u → Move u v → Moves s v

-- before anything has been kicked
abbrev pub idle_scheduler : Scheduler
idle_scheduler = record { active = []; live = []; ended = []; next = 0 }
