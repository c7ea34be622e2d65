-- ===== src/Jobs/Rounds.antt =====
-- Rows of groups and moves of the scheduler, and the theorems at them.
use pure_hypervisor_integrat.Prelude.{ℕ, String, ◌≡◌, refl, true, Option, none, some, List, [], ◌∷◌}
use pure_hypervisor_integrat.Prelude.Dict.{assign, erase}
use pure_hypervisor_integrat.Prelude.Json.{no_fields}
use pure_hypervisor_integrat.Api.Groups.{Batch}
use pure_hypervisor_integrat.Jobs.Scheduler.{
  numbers_of, is_running, without, kick, end_task, run_scheduler_cycle, kicks, Moves, at_start,
  then_move, idle_scheduler,
}
use pure_hypervisor_integrat.Jobs.Runners.{KickFits, Moves-KickFits}
use pure_hypervisor_integrat.Jobs.Passes.{Passed, run_scheduler_cycle-Passed}

-- a kick of "g1"
kicked : Moves idle_scheduler ((kick "g1" idle_scheduler).1)
kicked = then_move at_start (kicks "g1" refl)

Moves-KickFits_example : KickFits "g1" ((kick "g1" idle_scheduler).1)
Moves-KickFits_example = Moves-KickFits kicked "g1"

abbrev row : String → String → Option ℕ → Batch
row id status scheduled_at = record {
  id = id;
  name = id;
  status = status;
  scheduled_at = scheduled_at;
  concurrency = 1;
  continue_on_error = true;
  options = no_fields;
  members = [];
  finished_at = none;
}

-- one group that runs, one whose time has come, one that is to wait, and one that is over
abbrev rows : List Batch
rows =
    row "g1" "running" none
    ∷ row "g2" "scheduled" (some 90)
    ∷ row "g3" "scheduled" (some 110)
    ∷ row "g4" "failed" none
    ∷ []

run_scheduler_cycle-Passed_example :
    Passed 100 rows
      ((kick "g1" idle_scheduler).1)
      ((run_scheduler_cycle 100 rows ((kick "g1" idle_scheduler).1)).1.1)
unfolding kick is_running
run_scheduler_cycle-Passed_example = run_scheduler_cycle-Passed kicked refl 100 rows

-- a kick between the end of a task and its done-callback lets the callback drop the new task's entry,
-- so that a further kick launches a second runner
race :
    (let s =
        (kick "g1"
          (end_task (record { number = 0; group = "g1" }) ((kick "g1" idle_scheduler).1))).1 in
      let t = record s { active = erase "g1" s.active; ended = [] } in
      numbers_of "g1" ((kick "g1" t).1.live))
    ≡ (2 ∷ 1 ∷ [])
unfolding kick is_running numbers_of without assign erase
race = refl
