-- ===== src/Group/Trial.antt =====
-- A group of two members, a run of it, and the theorems at this run.
use pure_hypervisor_integrat.Prelude.{
  ◌≤◌, refl, true, false, none, some, List, [], ◌∷◌, max, arith, ◌<◌,
}
use pure_hypervisor_integrat.Group.Runner.{
  Member, asking, polling, finished, Runner, look_again, begun, here, there, Step, enter, ask,
  launch, finish, launched, ended,
}
use pure_hypervisor_integrat.Group.Reach.{Reach, begin, next, weigh, holds}
use pure_hypervisor_integrat.Group.Theorems.{remaining, Reach-bounded, Step-remaining}

abbrev fresh_member : Member
fresh_member = record { status = none; migration_id = none; job_id = none; error = none }

abbrev done_member : Member
done_member = record {
  status = some "succeeded";
  migration_id = some "m0";
  job_id = some "j0";
  error = none;
}

abbrev two : List Member
two = done_member ∷ fresh_member ∷ []

abbrev at_start : Runner
at_start = begun 1 false two

-- the runner when the second member's migration has failed
abbrev over : Runner
over = record {
  units =
      (done_member, finished)
      ∷ (ended "failed" none (launched "m1" "j1" fresh_member), finished)
      ∷ [];
  status = "running";
  continue_on_error = false;
  slots = 1;
  stop = true;
}

-- before it has
abbrev polled : Runner
polled = record {
  units = (done_member, finished) ∷ (launched "m1" "j1" fresh_member, polling 5) ∷ [];
  status = "running";
  continue_on_error = false;
  slots = 0;
  stop = false;
}

run_to_poll : Reach at_start polled
unfolding begun
run_to_poll =
    next
      (next
        (next (next begin (enter fresh_member _ (omega arith) (there here)))
          (ask fresh_member _ (there here)))
        (launch fresh_member "m1" "j1" true _ (there here)))
      (look_again (launched "m1" "j1" fresh_member) 0 _ (omega arith) (there here))

abbrev failing_step : Step polled over
failing_step =
    finish (launched "m1" "j1" fresh_member) 5 "failed" none true _ (omega arith) refl (there here)

run_to_failure : Reach at_start over
run_to_failure = next run_to_poll failing_step

Reach-bounded_example : weigh holds over.units ≤ max 1 1
Reach-bounded_example = Reach-bounded 1 false two over run_to_failure

first_step :
    Step at_start
      (record at_start { units = (done_member, finished) ∷ (fresh_member, asking) ∷ []; slots = 0 })
unfolding begun
first_step = enter fresh_member _ (omega arith) (there here)

Step-remaining_example :
    remaining
      (record at_start { units = (done_member, finished) ∷ (fresh_member, asking) ∷ []; slots = 0 })
    < remaining at_start
Step-remaining_example = Step-remaining at_start _ first_step
