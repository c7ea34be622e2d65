-- ===== src/Api/Lifecycle.antt =====
-- What the requests for a group make of the group's runner, `run_migration_group` of
-- backend/phif/migrate/service.py.
use pure_hypervisor_integrat.Prelude.{
  ◌≡◌, refl, ◌⊎◌, Bool, true, false, ◌==◌, Option, none, some, map, if◌then◌else◌, Bool-cases, inl,
  inr,
}
use pure_hypervisor_integrat.Group.Runner.{
  Member, Task, waiting, finished, Runner, status_of, places, already_finished, start,
}
use pure_hypervisor_integrat.Api.Http.{Response, accepted, refused, ◌>>=◌}
use pure_hypervisor_integrat.Api.Groups.{BatchMember, Batch, reset, cancel_migration_group}

-- the runner that a group's row leads to, if any
abbrev pub runner_of : Batch → Option Runner
runner_of g = start g.status g.concurrency g.continue_on_error (map (λ m. m.progress) g.members)

-- a member of a group that is run again: one that has succeeded is over, the others begin
abbrev pub again : BatchMember → Member × Task
again m =
    if status_of m.progress == "succeeded"
    then (m.progress, finished)
    else (reset m.progress, waiting)

-- what running a group again answers
abbrev pub RunAgain : Batch → Response (Batch × Bool) → Type 0
RunAgain g (accepted (g', kicked)) =
    ((g.status == "running") ≡ false)
    × ((g.status == "succeeded") ≡ false)
    × (kicked ≡ true)
    × (runner_of g'
        ≡ some (record {
          units = map again g.members;
          status = "running";
          continue_on_error = g.continue_on_error;
          slots = places g.concurrency;
          stop = false;
        }))
RunAgain g (refused status detail) =
    (status ≡ 409) × ((g.status ≡ "running") ⊎ (g.status ≡ "succeeded"))

-- what a cancellation answers
abbrev pub Cancelled : Batch → Response (Batch × Bool) → Type 0
Cancelled g (accepted (g', kicked)) =
    (already_finished g.status ≡ false)
    × (runner_of g' ≡ none)
    × (g'.members ≡ g.members)
    × (kicked ≡ false)
Cancelled g (refused status detail) = (status ≡ 409) × (runner_of g ≡ none)

-- `cancel_migration_group` refuses, with 409, exactly a group that no runner would begin any more; of
-- any other it makes one that no runner begins, without a change to its members
pub cancel_migration_group-Cancelled : (g : Batch) → Cancelled g (cancel_migration_group g)
unfolding cancel_migration_group start ◌>>=◌
cancel_migration_group-Cancelled g = elim (Bool-cases (already_finished g.status)) [
  | inl over ↦ rw (over) (refl, rw (over) refl)
  | inr over ↦ rw (over) (over, refl, refl, refl)
]
