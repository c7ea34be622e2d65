-- ===== src/Migrate/Run.antt =====
-- `MigrationService.run`: the steps in their order, the rollback of a failure, and the result.
use pure_hypervisor_integrat.Prelude.{
  String, Bool, true, false, Option, none, some, List, [], ◌∷◌, ◌||◌, if◌then◌else◌, flag_or, maybe,
}
use pure_hypervisor_integrat.Prelude.Text.{fstring}
use pure_hypervisor_integrat.Migrate.World.{Error, migration_error, other_error, Connectors}
use pure_hypervisor_integrat.Migrate.Act.{State, Act, pure, gets, attempt, emit, ◌>>=◌, ◌>>◌}
use pure_hypervisor_integrat.Migrate.Service.{Config, mode, is_move, cross_array}
use pure_hypervisor_integrat.Migrate.Preflight.{
  preflight, capture_spec, prepare_source, cleanup_scratch, resolve_volumes,
}
use pure_hypervisor_integrat.Migrate.Destination.{create_dest_vm}
use pure_hypervisor_integrat.Migrate.Disks.{
  build_destination_disks, finalize_dest_disks, convert_dest_disks, set_boot,
}
use pure_hypervisor_integrat.Migrate.Power.{
  error_line, shutdown_source, quiesce_source, power_on_dest,
}
use pure_hypervisor_integrat.Migrate.Finish.{
  ensure_array_connection, cleanup_replication, finalize_move, finalize_copy,
}
use pure_hypervisor_integrat.Migrate.Steps.{clear, unwind}

-- the `artifacts` of a success
pub record Artifacts : Type 0 where
  pub dest_vm_ref : Option String
  pub source_vm_ref : String
  pub mode : String
  pub cross_array : Bool

-- the `OpResult` of `run`, with its `data` by their keys; `data["dest_vm_ref"]` is set by a failure
pub record RunResult : Type 0 where
  pub success : Bool
  pub message : String
  pub phase : String
  pub dest_vm_ref : Option String
  pub rollback_failures : List String
  pub artifacts : Option Artifacts

-- the message of an exception: a `MigrationError` without its type's name
abbrev pub failure_text : Error → String
failure_text (migration_error t) = t
failure_text (other_error name t) = error_line (other_error name t)

abbrev pub consistency : Config → String
consistency cfg =
    if is_move cfg || shutdown_source cfg
    then "clean (source shut down)"
    else "crash-consistent (source left running)"

abbrev pub power_word : State → String
power_word s = if s.powered_on then "booted" else "left powered off"

-- the message of a success
unfoldable pub success_text : Config → State → String
success_text cfg s =
    if is_move cfg
    then fstring (
        "move complete; destination built from a plugin-managed "
        ∷ consistency cfg
        ∷ " copy and "
        ∷ power_word s
        ∷ "; source VM removed, volume(s) deleted"
        ∷ [])
    else fstring (
        "copy complete; destination built from a plugin-managed "
        ∷ consistency cfg
        ∷ " copy and "
        ∷ power_word s
        ∷ "; source untouched"
        ∷ [])

module _ (c : Connectors) (cfg : Config) where
  -- the steps before any copy is made
  unfoldable pub prepare : Act (Unit {0})
  prepare = do
    preflight c cfg
    capture_spec c cfg
    prepare_source c cfg
    resolve_volumes c
    create_dest_vm c cfg
    (if cross_array cfg then ensure_array_connection c cfg else pure tt)

  -- the steps that build the destination and start it
  unfoldable pub build : Act (Unit {0})
  build = do
    build_destination_disks c cfg
    finalize_dest_disks c cfg
    (if flag_or cfg.options.convert_to_vmfs false then convert_dest_disks c cfg else pure tt)
    disks ← gets (λ s. s.dest_disks)
    set_boot c cfg disks
    power_on_dest c cfg
    (if cross_array cfg then cleanup_replication c cfg else pure tt)

  -- the `try` block
  unfoldable pub body : Act (Unit {0})
  unfolding prepare build
  body = do
    prepare
    quiesce_source c cfg
    build
    (if is_move cfg then finalize_move c cfg else finalize_copy c cfg)

  -- the handler's answer, once the compensations are done
  unfoldable pub rolled_back : Error → List String → Act RunResult
  rolled_back exc failures = do
    cleanup_scratch c cfg
    ref ← gets (λ s. s.dest_vm_ref)
    pure (record {
      success = false;
      message = fstring ("migration failed and was rolled back: " ∷ failure_text exc ∷ []);
      phase = "rolled_back";
      dest_vm_ref = ref;
      rollback_failures = failures;
      artifacts = none;
    })

  -- the handler of the `try` block
  unfoldable pub fail_and_roll_back : Error → Act RunResult
  unfolding rolled_back
  fail_and_roll_back exc = do
    emit (fstring ("[migration] FAILED: " ∷ failure_text exc ∷ []))
    failures ← unwind c cfg
    rolled_back exc failures

  -- what follows the `try` block
  unfoldable pub conclude : Act RunResult
  conclude = do
    cleanup_scratch c cfg
    clear
    s ← gets (λ s. s)
    pure (record {
      success = true;
      message = success_text cfg s;
      phase = "succeeded";
      dest_vm_ref = none;
      rollback_failures = [];
      artifacts = some (record {
        dest_vm_ref = s.dest_vm_ref;
        source_vm_ref = cfg.vm_ref;
        mode = mode cfg;
        cross_array = cross_array cfg;
      });
    })

  -- `run`: the `try` block, and what its end leads to
  unfoldable pub run : Act RunResult
  run = do
    failed ← attempt (do body; pure none) (λ exc. pure (some exc))
    maybe failed conclude fail_and_roll_back
