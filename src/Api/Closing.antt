-- ===== src/Api/Closing.antt =====
-- The job of a migration, `op_factory` of `run_migration` in backend/phif/migrate/service.py: a run of
-- the orchestrator, with what it writes to the migration's row at each phase and at the end. Whether the
-- database takes a write, at each of its tries, is a parameter.
use pure_hypervisor_integrat.Prelude.{
  ℕ, String, Bool, ◌&&◌, ◌==◌, Option, none, some, List, [], ◌∷◌, length, is_empty, maybe,
  if◌then◌else◌,
}
use pure_hypervisor_integrat.Prelude.Json.{
  Values, Fields, json_bool, json_text, json_list, json_dict, no_values, more_values, no_fields,
  more_fields,
}
use pure_hypervisor_integrat.Migrate.Spec.{VmSpec}
use pure_hypervisor_integrat.Migrate.Dicts.{text_value, to_dict}
use pure_hypervisor_integrat.Migrate.World.{
  Result, ok, err, Connectors, Event, logged, slept, called, observed, Trace,
}
use pure_hypervisor_integrat.Migrate.Act.{State}
use pure_hypervisor_integrat.Migrate.Service.{Config, fresh}
use pure_hypervisor_integrat.Migrate.Run.{Artifacts, RunResult, run}
use pure_hypervisor_integrat.Api.Pairs.{Hypervisor, find_hv}
use pure_hypervisor_integrat.Api.Migrations.{Migration, update_migration}

unfoldable pub text_values : List String → Values
text_values [] = no_values
text_values (s ∷ rest) = more_values (json_text s) (text_values rest)

-- `result.data`
abbrev pub result_data : RunResult → Fields
result_data r =
    let failures =
      if is_empty r.rollback_failures
      then no_fields
      else more_fields "rollback_failures" (json_list (text_values r.rollback_failures))
          no_fields in
    more_fields "phase" (json_text r.phase) (
      if r.success
      then no_fields
      else more_fields "dest_vm_ref" (text_value r.dest_vm_ref) failures)

-- `result.artifacts`
abbrev pub artifact_fields : Artifacts → Fields
artifact_fields a = more_fields "dest_vm_ref" (text_value a.dest_vm_ref) (
    more_fields "source_vm_ref" (json_text a.source_vm_ref) (
      more_fields "mode" (json_text a.mode)
        (more_fields "cross_array" (json_bool a.cross_array) no_fields)))

-- the column `result`
abbrev pub result_fields : RunResult → Fields
result_fields r = more_fields "success" (json_bool r.success) (
    more_fields "message" (json_text r.message) (
      more_fields "data" (json_dict (result_data r)) (
        more_fields "artifacts" (json_dict (maybe r.artifacts no_fields artifact_fields))
          no_fields)))

-- the column `status`
abbrev pub closing_status : RunResult → String
closing_status r =
    if r.success then "succeeded" else if r.phase == "rolled_back" then "rolled_back" else "failed"

-- the row at the end of the job
abbrev pub closed_row : RunResult → State → Migration → Migration
closed_row r s m = record m {
  status = closing_status r;
  phase = r.phase;
  dest_vm_ref = s.dest_vm_ref;
  spec = maybe s.spec no_fields to_dict;
  result = result_fields r;
}

-- `on_phase`
abbrev pub phased_row : String → Option VmSpec → Option String → Migration → Migration
phased_row phase spec ref m = record m {
  phase = phase;
  status = "running";
  spec = maybe spec m.spec to_dict;
  dest_vm_ref = maybe ref m.dest_vm_ref some;
}

-- what the phases of a run have written, the newest event first
unfoldable pub phases_written : (ℕ → ℕ → Bool) → String → Trace → List Migration → List Migration
phases_written takes id [] rows = rows
phases_written takes id (event ∷ past) rows =
    let before = phases_written takes id past rows in
    elim event [
      | Event.phase name spec ref ↦
          update_migration (takes (length past)) 3 id (phased_row name spec ref) before
      | logged line ↦ before
      | slept time ↦ before
      | called call outcome ↦ before
      | observed side ref state ↦ before
    ]

-- the last write, for the answer of the run
unfoldable pub closing :
    (ℕ → Bool) → String → Result RunResult × State → List Migration → List Migration
closing takes id (ok r, s) rows = update_migration takes 3 id (closed_row r s) rows
closing takes id (err e, s) rows = rows

module _ (c : Connectors) (cfg : Config) (takes : ℕ → ℕ → Bool) (takes_last : ℕ → Bool) where
  -- `op_factory` once both hypervisors are found: the rows after the job
  unfoldable pub migration_job : String → List Migration → List Migration
  unfolding closing phases_written
  migration_job id rows =
      let ending = run c cfg fresh in
      closing takes_last id ending (phases_written takes id (ending.1.trace) rows)

  -- `op_factory`: a hypervisor that was deleted in the meantime leaves the row as it is, and so does one
  -- whose connector is not built, by an exception of `build_connector` that leaves the operation
  unfoldable pub op_factory :
      (Hypervisor → Bool)
      → String
      → String
      → List Hypervisor
      → String
      → List Migration
      → List Migration
  op_factory is_built source_id dest_id hypervisors id rows =
      let ran = migration_job id rows in
      elim (find_hv source_id hypervisors) [
        | none ↦ rows
        | some source ↦ elim (find_hv dest_id hypervisors) [
          | none ↦ rows
          | some dest ↦ if is_built source && is_built dest then ran else rows
        ]
      ]
