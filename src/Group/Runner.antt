-- ===== src/Group/Runner.antt =====
-- `run_migration_group`, `_launch_and_wait_member` and `_group_update_member`: the coroutines of the
-- members as a step relation over the semaphore, the stop flag and the group's row. A step ends where
-- the coroutine waits for something that others can change.
use pure_hypervisor_integrat.Prelude.{
  ℕ, ◌+◌, ◌-◌, ◌<◌, ◌≤◌, max, String, ◌≡◌, Bool, true, false, not, ◌&&◌, ◌||◌, ◌==◌, if◌then◌else◌,
  Option, none, some, List, [], ◌∷◌, map, all, is_empty, contains, text_or,
}

-- a member of the group's `members`: the keys that the runner writes
pub record Member : Type 0 where
  pub status : Option String
  pub migration_id : Option String
  pub job_id : Option String
  pub error : Option String

-- `_GROUP_TERMINAL`
abbrev pub group_terminal : List String
group_terminal = "succeeded" ∷ "failed" ∷ "rolled_back" ∷ "skipped" ∷ []

-- `m.get("status") or "pending"`
abbrev pub status_of : Member → String
status_of m = text_or m.status "pending"

abbrev pub terminal : Member → Bool
terminal m = contains (status_of m) group_terminal

-- where the coroutine `_run` of a member stands: before the semaphore, before it asks whether the group
-- is cancelled, before it marks the member as skipped, before it launches the migration, while it
-- polls the migration with the seconds it has waited, at its end with the member's status written, and
-- at its end without that; a member that is not pending has none and is at its end
pub data Task : Type 0 where
  waiting : Task
  asking : Task
  skipping : Task
  launching : Task
  polling : ℕ → Task
  finished : Task
  lost : Task

-- `poll_delay` and `timeout_s`, in seconds
abbrev pub poll_delay : ℕ
poll_delay = 5

abbrev pub timeout_s : ℕ
timeout_s = 7200

-- a run of a group: the members with their coroutines, the group's columns, the free places of the
-- semaphore and `state["stop"]`
pub record Runner : Type 0 where
  pub units : List (Member × Task)
  pub status : String
  pub continue_on_error : Bool
  pub slots : ℕ
  pub stop : Bool

-- `max(1, int(g.concurrency or 1))`
abbrev pub places : ℕ → ℕ
places concurrency = max 1 concurrency

-- the coroutine of a member at the start: `pending` has the members that are not terminal
abbrev pub initial : Member → Member × Task
initial m = (m, if terminal m then finished else waiting)

-- a group that is over is not run
abbrev pub already_finished : String → Bool
already_finished status = contains status ("succeeded" ∷ "failed" ∷ "partial" ∷ "canceled" ∷ [])

-- the runner of a group, before any of its coroutines has run
unfoldable pub begun : ℕ → Bool → List Member → Runner
begun concurrency continue_on_error members = record {
  units = map initial members;
  status = "running";
  continue_on_error = continue_on_error;
  slots = places concurrency;
  stop = false;
}

-- the start of `run_migration_group`, for the group's row
unfoldable pub start : String → ℕ → Bool → List Member → Option Runner
unfolding begun
start status concurrency continue_on_error members =
    if already_finished status then none else some (begun concurrency continue_on_error members)

-- `_group_update_member(…, status="skipped")`
abbrev pub skipped : Member → Member
skipped m = record m { status = some "skipped" }

-- `_group_update_member(…, migration_id=…, job_id=…, status="running")`
abbrev pub launched : String → String → Member → Member
launched migration job m = record m {
  migration_id = some migration;
  job_id = some job;
  status = some "running";
}

-- `_group_update_member(…, status=st, error=err)`
abbrev pub ended : String → Option String → Member → Member
ended st err m = record m { status = some st; error = err }

-- `_group_update_member`: three tries to write the member's entry; if none of them is `saved`, or the
-- group's row is gone, the entry stays as it is and nothing is raised. The read and the write of the
-- entries stand under the group's lock, so they are one step.
abbrev pub update_member : Bool → Member → Member → Member
update_member saved old new = if saved then new else old

-- the end of the coroutine after such a write
abbrev pub at_end : Bool → Task
at_end saved = if saved then finished else lost

-- one unit of the list gives way to another
pub data Change (u v : Member × Task) : List (Member × Task) → List (Member × Task) → Type 0 where
  here : {us : List (Member × Task)} → Change u v (u ∷ us) (v ∷ us)
  there :
      {x : Member × Task} {us vs : List (Member × Task)}
      → Change u v us vs
      → Change u v (x ∷ us) (x ∷ vs)

-- what follows the acquisition of the semaphore: `state["stop"] or …`
abbrev pub entered : Runner → Task
entered r = if r.stop then skipping else asking

-- what follows the answer of `_group_is_canceled`
abbrev pub answered : Runner → Task
answered r = if r.status == "canceled" then skipping else launching

-- the end of `_run`, with the member's final status
abbrev pub settled : Runner → List (Member × Task) → String → Runner
settled r vs st = record r {
  units = vs;
  slots = r.slots + 1;
  stop = r.stop || (not (st == "succeeded") && not r.continue_on_error);
}

-- a migration's final status, as `_launch_and_wait_member` returns it
abbrev pub final : String → Bool
final st = contains st ("succeeded" ∷ "failed" ∷ "rolled_back" ∷ [])

abbrev pub timed_out : String
timed_out = "timed out waiting for migration to finish"

-- A step of a member's coroutine, or `cancel_migration_group` of backend/phif/api/migrations.py. Each
-- write of a member's entry may be saved or not.
pub data Step (r : Runner) : Runner → Type 0 where
  enter :
      (m : Member) (vs : List (Member × Task))
      → 0 < r.slots
      → Change (m, waiting) (m, entered r) r.units vs
      → Step r (record r { units = vs; slots = r.slots - 1 })
  ask :
      (m : Member) (vs : List (Member × Task))
      → Change (m, asking) (m, answered r) r.units vs
      → Step r (record r { units = vs })
  -- `_group_is_canceled` raises, outside the `try` of `_run`
  unanswered :
      (m : Member) (vs : List (Member × Task))
      → Change (m, asking) (m, lost) r.units vs
      → Step r (record r { units = vs; slots = r.slots + 1 })
  skip :
      (m : Member) (saved : Bool) (vs : List (Member × Task))
      → Change (m, skipping) (update_member saved m (skipped m), at_end saved) r.units vs
      → Step r (record r { units = vs; slots = r.slots + 1 })
  launch :
      (m : Member) (migration job : String) (saved : Bool) (vs : List (Member × Task))
      → Change
          (m, launching)
          (update_member saved m (launched migration job m), polling 0)
          r.units
          vs
      → Step r (record r { units = vs })
  -- the launch raises, or the group's row is gone
  refuse :
      (m : Member) (error : String) (saved : Bool) (vs : List (Member × Task))
      → Change
          (m, launching)
          (update_member saved m (ended "failed" (some error) m), at_end saved)
          r.units
          vs
      → Step r (settled r vs "failed")
  -- a round of the loop in which the migration is not over
  look_again :
      (m : Member) (waited : ℕ) (vs : List (Member × Task))
      → waited ≤ timeout_s
      → Change (m, polling waited) (m, polling (waited + poll_delay)) r.units vs
      → Step r (record r { units = vs })
  -- a round in which it is
  finish :
      (m : Member) (waited : ℕ) (st : String) (err : Option String) (saved : Bool)
      (vs : List (Member × Task))
      → waited ≤ timeout_s
      → final st ≡ true
      → Change (m, polling waited) (update_member saved m (ended st err m), at_end saved) r.units vs
      → Step r (settled r vs st)
  -- a round that raises, and is caught in `_run`
  crash :
      (m : Member) (waited : ℕ) (error : String) (saved : Bool) (vs : List (Member × Task))
      → waited ≤ timeout_s
      → Change
          (m, polling waited)
          (update_member saved m (ended "failed" (some error) m), at_end saved)
          r.units
          vs
      → Step r (settled r vs "failed")
  -- the loop is over
  time_out :
      (m : Member) (waited : ℕ) (saved : Bool) (vs : List (Member × Task))
      → timeout_s < waited
      → Change
          (m, polling waited)
          (update_member saved m (ended "failed" (some timed_out) m), at_end saved)
          r.units
          vs
      → Step r (settled r vs "failed")
  cancel : already_finished r.status ≡ false → Step r (record r { status = "canceled" })

-- the status of a group whose members have these statuses, if it was not cancelled
unfoldable pub aggregate : List String → String
aggregate sts =
    if not (is_empty sts) && all (λ x. x == "succeeded") sts
    then "succeeded"
    else if all (λ x. contains x ("failed" ∷ "rolled_back" ∷ "skipped" ∷ [])) sts
    then "failed"
    else "partial"

-- the end of `run_migration_group`: the group's status
unfoldable pub outcome : Runner → String
unfolding aggregate
outcome r =
    if r.status == "canceled" then "canceled" else aggregate (map (λ u. status_of u.0) r.units)
