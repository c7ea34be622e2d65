-- ===== src/Api/Groups.antt =====
-- The requests for groups of migrations: `create_migration_group`, `run_migration_group_now`,
-- `cancel_migration_group` and `delete_migration_group`. A time is a number of seconds. An answer says
-- what the row is afterwards; where the source then kicks the group's runner, the answer's flag is set.
use pure_hypervisor_integrat.Prelude.{
  ℕ, max, String, Bool, true, false, not, ◌==◌, Option, none, some, List, [], ◌∷◌, contains, map,
  is_empty, leb, text_or, if◌then◌else◌, number_or,
}
use pure_hypervisor_integrat.Prelude.Text.{fstring}
use pure_hypervisor_integrat.Prelude.Json.{Fields, merged, flagged}
use pure_hypervisor_integrat.Group.Runner.{Member, status_of}
use pure_hypervisor_integrat.Api.Http.{Response, accepted, ◌>>=◌, insist}
use pure_hypervisor_integrat.Api.Pairs.{Hypervisor, Site, get_hv, validate_pair}

-- an entry of a group's `members`: what is to be migrated, and the keys that the runner writes
pub record BatchMember : Type 0 where
  pub source_hypervisor_id : String
  pub dest_hypervisor_id : String
  pub vm_ref : String
  pub network_map : Fields
  pub options : Fields
  pub progress : Member

-- a row of the migration groups
pub record Batch : Type 0 where
  pub id : String
  pub name : String
  pub status : String
  pub scheduled_at : Option ℕ
  pub concurrency : ℕ
  pub continue_on_error : Bool
  pub options : Fields
  pub members : List BatchMember
  pub finished_at : Option ℕ

-- a member of `MigrationGroupCreate`
pub record MemberWanted : Type 0 where
  pub source_hypervisor_id : String
  pub dest_hypervisor_id : String
  pub vm_ref : String
  pub network_map : Fields
  pub options : Fields

-- `MigrationGroupCreate`
pub record BatchWanted : Type 0 where
  pub name : String
  pub members : List MemberWanted
  pub scheduled_at : Option ℕ
  pub concurrency : Option ℕ
  pub continue_on_error : Bool
  pub options : Fields

-- the progress of a member that has not begun
abbrev pub unbegun : Member
unbegun = record { status = some "pending"; migration_id = none; job_id = none; error = none }

-- `sched is None or sched <= now`
abbrev pub is_due : ℕ → Option ℕ → Bool
is_due now none = true
is_due now (some at) = leb at now

module _ (supports : String → Bool) (site : Hypervisor → Site) where
  -- a member that has passed its tests
  unfoldable pub checked_member : List Hypervisor → Fields → MemberWanted → Response BatchMember
  checked_member rows options m = do
    source ← get_hv m.source_hypervisor_id rows
    dest ← get_hv m.dest_hypervisor_id rows
    _ ←
        validate_pair supports site source dest
          (flagged "allow_array_connect" (merged options m.options))
    accepted (record {
      source_hypervisor_id = source.id;
      dest_hypervisor_id = dest.id;
      vm_ref = m.vm_ref;
      network_map = m.network_map;
      options = m.options;
      progress = unbegun;
    })

  -- the loop over the members
  unfoldable pub checked_members :
      List Hypervisor → Fields → List MemberWanted → Response (List BatchMember)
  unfolding checked_member
  checked_members rows options [] = accepted []
  checked_members rows options (m ∷ wanted) = do
    member ← checked_member rows options m
    members ← checked_members rows options wanted
    accepted (member ∷ members)

  -- `create_migration_group`, with the id of the new row and the name of a group without one
  unfoldable pub create_migration_group :
      String → String → ℕ → BatchWanted → List Hypervisor → Response (Batch × Bool)
  create_migration_group id stamp now body rows = do
    _ ← insist (not (is_empty body.members)) 400 "A migration group needs at least one member"
    members ← checked_members rows body.options body.members
    let run_now = is_due now body.scheduled_at in
        accepted (
          record {
            id = id;
            name = text_or (some body.name) (fstring ("group-" ∷ stamp ∷ []));
            status = if run_now then "pending" else "scheduled";
            scheduled_at = if run_now then none else body.scheduled_at;
            concurrency = max 1 (number_or body.concurrency 1);
            continue_on_error = body.continue_on_error;
            options = body.options;
            members = members;
            finished_at = none;
          },
          run_now,
        )

-- a member that did not succeed, back at its start
abbrev pub reset : Member → Member
reset m = if status_of m == "succeeded" then m else unbegun

abbrev pub reset_member : BatchMember → BatchMember
reset_member m = record m { progress = reset m.progress }

-- `run_migration_group_now`
unfoldable pub run_migration_group_now : Batch → Response (Batch × Bool)
run_migration_group_now g = do
  _ ← insist (not (g.status == "running")) 409 "Group is already running"
  _ ← insist (not (g.status == "succeeded")) 409 "Group already succeeded — nothing to re-run"
  accepted (
    record g {
      members = map reset_member g.members;
      status = "pending";
      scheduled_at = none;
      finished_at = none;
    },
    true,
  )

-- `cancel_migration_group`
unfoldable pub cancel_migration_group : Batch → Response (Batch × Bool)
cancel_migration_group g = do
  _ ←
      insist (not (contains g.status ("succeeded" ∷ "failed" ∷ "partial" ∷ "canceled" ∷ []))) 409
        (fstring ("Group is already " ∷ g.status ∷ []))
  accepted (record g { status = "canceled" }, false)

-- `delete_migration_group`: the row afterwards
unfoldable pub delete_migration_group : Option Batch → Response (Option Batch)
delete_migration_group none = accepted none
delete_migration_group (some g) = do
  _ ← insist (not (g.status == "running")) 409 "Cancel the group before deleting it"
  accepted none
