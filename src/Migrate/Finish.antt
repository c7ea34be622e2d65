-- ===== src/Migrate/Finish.antt =====
-- The array connection of a cross-array migration and the last steps of migrate/service.py:
-- `_ensure_array_connection`, `_cleanup_replication`, `_finalize_move` and `_finalize_copy`.
use pure_hypervisor_integrat.Prelude.{
  String, Bool, true, false, not, Option, none, some, List, [], ◌∷◌, map, ◌==◌, ◌||◌, if◌then◌else◌,
  text_or, flag_or, any, select,
}
use pure_hypervisor_integrat.Prelude.Text.{fstring, repr, join}
use pure_hypervisor_integrat.Migrate.Spec.{DiskSpec}
use pure_hypervisor_integrat.Migrate.World.{
  source, dest, migration_error, Connectors, array_name, list_array_connections, get_connection_key,
  get_replication_addresses, connect_to_array, cleanup_replication_pgroup, delete_vm,
  disconnect_volume_from_group, delete_volume,
}
use pure_hypervisor_integrat.Migrate.Act.{
  Act, pure, gets, modify, require, attempt, emit, perform, judged, returned, ◌>>=◌, ◌>>◌,
}
use pure_hypervisor_integrat.Migrate.Service.{Config, dry_run, phase, skip, the_spec}
use pure_hypervisor_integrat.Migrate.Preflight.{error_text}
use pure_hypervisor_integrat.Migrate.Power.{error_line, shutdown_source}

module _ (c : Connectors) (cfg : Config) where
  -- the rest of `_ensure_array_connection`, where the arrays `here` and `there` are not connected
  unfoldable pub connect_arrays : String → String → Act (Unit {0})
  connect_arrays here there = do
    require (flag_or cfg.options.allow_array_connect false) (
        migration_error (
          fstring (
            "source array is not connected to destination array "
            ∷ repr there
            ∷ "; configuring an array connection requires authorization"
            ∷ [])))
    phase "configure array connection (replication)"
    key ← perform get_connection_key returned (λ t. c.answer t get_connection_key)
    addresses ← perform get_replication_addresses returned c.addresses
    skipped ←
        skip cfg (fstring ("connect array " ∷ here ∷ " -> " ∷ there ∷ " for replication" ∷ []))
    if skipped then pure tt else do
      let call = connect_to_array c.endpoint key addresses
      perform call returned (λ t. c.effect t call)
      emit (
          fstring (
            "[xarray] connected source array "
            ∷ repr here
            ∷ " -> "
            ∷ repr there
            ∷ " (kept; manage on the FlashArrays page)"
            ∷ []))

  -- `_ensure_array_connection`
  unfoldable pub ensure_array_connection : Act (Unit {0})
  unfolding connect_arrays
  ensure_array_connection = do
    here ← perform (array_name source) returned (λ t. c.answer t (array_name source))
    modify (λ s. record s { src_array_name = here })
    there ← perform (array_name dest) returned (λ t. c.answer t (array_name dest))
    modify (λ s. record s { dst_array_name = there })
    conns ← perform list_array_connections returned c.connections
    if any (λ o. text_or o "" == there) conns
        then emit (fstring ("[xarray] array connection to " ∷ repr there ∷ " already exists" ∷ []))
        else connect_arrays here there

  -- the end of `_cleanup_replication`, of a group that was planned
  unfoldable pub drop_pgroup : Option String → Act (Unit {0})
  drop_pgroup none = pure tt
  drop_pgroup (some pg) = if pg == "" then pure tt else do
    phase "clean up replication artifacts (keep array connection)"
    attempt
        (perform (cleanup_replication_pgroup pg) returned
          (λ t. c.effect t (cleanup_replication_pgroup pg)))
        (λ exc. emit (fstring ("[xarray] WARNING: pgroup cleanup failed: " ∷ error_text exc ∷ [])))

  -- `_cleanup_replication`
  unfoldable pub cleanup_replication : Act (Unit {0})
  unfolding drop_pgroup
  cleanup_replication = do pg ← gets (λ s. s.repl_pgroup); drop_pgroup pg

  -- the names of the source's volumes, for the log
  abbrev pub volume_names : List DiskSpec → String
  volume_names disks =
      let names = select (λ n. not (n == "")) (map (λ d. d.identity.fa_volume) disks) in
      let joined = join ", " names in if joined == "" then "its volumes" else joined

  -- the first half of `_finalize_move`: whether the source VM is confirmed gone
  unfoldable pub remove_source_vm : Act Bool
  remove_source_vm =
      attempt
        (do
          let call = delete_vm source cfg.vm_ref true
          r ← perform call judged (λ t. c.reply t call)
          if r.success then pure true else (do
            emit (fstring ("[move] WARNING: source VM removal failed: " ∷ r.message ∷ []))
            pure false))
        (λ exc. do
          emit (fstring ("[move] WARNING: source VM removal error: " ∷ error_line exc ∷ []))
          pure false)

  -- the calls that take one volume away from its group, if there is one, and erase it
  unfoldable pub erase_volume : String → Act (Unit {0})
  erase_volume vol = do
    hg ← gets (λ s. s.source_hg)
    if hg == ""
        then pure tt
        else perform (disconnect_volume_from_group hg vol) returned
            (λ t. c.effect t (disconnect_volume_from_group hg vol))
    perform (delete_volume vol true) returned (λ t. c.effect t (delete_volume vol true))
    emit (fstring ("[move] deleted source volume " ∷ vol ∷ []))

  -- the body of the loop over the source's volumes
  unfoldable pub delete_source_volume : String → Act (Unit {0})
  unfolding erase_volume
  delete_source_volume vol =
      if vol == "" || not (c.has_array source)
      then pure tt
      else attempt
          (do
            skipped ← skip cfg (fstring ("delete + eradicate source volume " ∷ vol ∷ []))
            if skipped then pure tt else erase_volume vol)
          (λ exc. emit (
            fstring (
              "[move] WARNING: could not delete source volume "
              ∷ vol
              ∷ ": "
              ∷ error_line exc
              ∷ [])))

  unfoldable pub delete_source_volumes : List DiskSpec → Act (Unit {0})
  delete_source_volumes [] = pure tt
  delete_source_volumes (d ∷ rest) = do
    delete_source_volume d.identity.fa_volume
    delete_source_volumes rest

  -- what is done once the removal of the source VM has been tried
  unfoldable pub after_removal : List DiskSpec → Bool → Act (Unit {0})
  after_removal disks true = delete_source_volumes disks
  after_removal disks false = emit (
      fstring (
        "[move] WARNING: NOT deleting the source volume(s) because the source VM was "
        ∷ "not removed. The destination is running and is safe to use; the source VM still exists "
        ∷ "and still owns "
        ∷ volume_names disks
        ∷ ". Remove the source VM first, then delete those "
        ∷ "volumes by hand. (Eradicating them now would take the disks away from a live VM.)"
        ∷ []))

  -- `_finalize_move`
  unfoldable pub finalize_move : Act (Unit {0})
  finalize_move = do
    phase "finalize: remove source VM and delete source volume(s)"
    v ← the_spec
    if dry_run cfg
        then emit (
            fstring (
              "[dry-run] would remove source VM "
              ∷ cfg.vm_ref
              ∷ " and then delete + eradicate "
              ∷ volume_names v.disks
              ∷ []))
        else (do removed ← remove_source_vm; after_removal v.disks removed)

  -- `_finalize_copy`
  unfoldable pub finalize_copy : Act (Unit {0})
  finalize_copy = do
    phase "finalize: copy complete"
    if shutdown_source cfg
        then emit (
            fstring (
              "[copy] destination has an independent CLEAN copy; source left shut down "
              ∷ "(it was powered off for the copy and NOT restarted)" ∷ []))
        else emit (
            fstring (
              "[copy] destination has an independent crash-consistent copy; source left "
              ∷ "running (untouched)" ∷ []))
