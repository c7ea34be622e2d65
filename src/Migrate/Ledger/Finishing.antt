-- ===== src/Migrate/Ledger/Finishing.antt =====
-- The invariant of a migration through its last steps, the rollback and the whole of `run`.
use pure_hypervisor_integrat.Prelude.{All, ◌≡◌, true, String, Option, none, some, List, [], ◌∷◌}
use pure_hypervisor_integrat.Migrate.Spec.{DiskSpec}
use pure_hypervisor_integrat.Migrate.World.{Event, Trace, Connectors}
use pure_hypervisor_integrat.Migrate.Act.{
  modify, Entry, Undo, teardown_dest, restart_source, remove_pgroup,
}
use pure_hypervisor_integrat.Migrate.Service.{Config, is_move}
use pure_hypervisor_integrat.Migrate.Power.{stop_dest, try_stop, delete_dest, teardown}
use pure_hypervisor_integrat.Migrate.Finish.{
  connect_arrays, ensure_array_connection, drop_pgroup, cleanup_replication, erase_volume,
  delete_source_volume, delete_source_volumes, finalize_copy,
}
use pure_hypervisor_integrat.Migrate.Steps.{run_undo, compensate, unwind_entries}
use pure_hypervisor_integrat.Migrate.Ledger.Defs.{Live, Removed, Undoable, Good}
use pure_hypervisor_integrat.Migrate.Ledger.Rules.{
  Preserves, Preserves-pure, Preserves-bind, good_rules,
}

module _ {c : Connectors} {cfg : Config} {E : Trace → Type 0}
    (grow : (e : Event) (t : Trace) → E t → E (e ∷ t)) where
  connect_arrays-Good :
      (here there : String) → Preserves (Good c cfg E) (connect_arrays c cfg here there)
  unfolding connect_arrays
  connect_arrays-Good here there = search good_rules depth 20

  pub ensure_array_connection-Good : Preserves (Good c cfg E) (ensure_array_connection c cfg)
  unfolding ensure_array_connection
  ensure_array_connection-Good = search (good_rules, connect_arrays-Good) depth 20

  drop_pgroup-Good : (pg : Option String) → Preserves (Good c cfg E) (drop_pgroup c cfg pg)
  unfolding drop_pgroup
  drop_pgroup-Good none = search good_rules
  drop_pgroup-Good (some pg) = search good_rules depth 20

  pub cleanup_replication-Good : Preserves (Good c cfg E) (cleanup_replication c cfg)
  unfolding cleanup_replication
  cleanup_replication-Good = search (good_rules, drop_pgroup-Good) depth 20

  pub finalize_copy-Good : Preserves (Good c cfg E) (finalize_copy c cfg)
  unfolding finalize_copy
  finalize_copy-Good = search good_rules depth 20

  teardown-Good : (ref : String) → Live cfg → Preserves (Good c cfg E) (teardown c ref)
  unfolding teardown try_stop stop_dest delete_dest
  teardown-Good ref live = search good_rules depth 20

  run_undo-Good : (u : Undo) → Undoable c cfg u → Preserves (Good c cfg E) (run_undo c cfg u)
  unfolding run_undo
  run_undo-Good (teardown_dest ref) live = teardown-Good ref live
  run_undo-Good restart_source live = search good_rules
  run_undo-Good (remove_pgroup pg) live = search good_rules

  compensate-Good :
      (e : Entry) (failures : List String)
      → Undoable c cfg e.undo
      → Preserves (Good c cfg E) (compensate c cfg e failures)
  unfolding compensate
  compensate-Good e failures allowed = search (good_rules, run_undo-Good) depth 20

  drop_entry :
      (rest : List Entry)
      → All (λ e. Undoable c cfg e.undo) rest
      → Preserves (Good c cfg E) (modify (λ s. record s { rollback = rest }))
  drop_entry rest allowed = record {
    after = λ s g. record { orderly = g.orderly; undoable = allowed; extra = g.extra };
  }

  pub unwind_entries-Good :
      (entries : List Entry) (failures : List String)
      → All (λ e. Undoable c cfg e.undo) entries
      → Preserves (Good c cfg E) (unwind_entries c cfg entries failures)
  unfolding unwind_entries
  unwind_entries-Good [] failures allowed = Preserves-pure failures
  unwind_entries-Good (e ∷ rest) failures allowed =
      Preserves-bind _ _ (drop_entry rest allowed.1) λ _.
        Preserves-bind _ _ (compensate-Good e failures allowed.0)
          λ failures'. unwind_entries-Good rest failures' allowed.1

  -- the steps that erase the source's volumes
  module _ (move : is_move cfg ≡ true) (removed : (t : Trace) → E t → Removed cfg t) where
    erase_volume-Good :
        Live cfg → (vol : String) → Preserves (Good c cfg E) (erase_volume c cfg vol)
    unfolding erase_volume
    erase_volume-Good live vol = search good_rules depth 20

    delete_source_volume-Good :
        Live cfg → (vol : String) → Preserves (Good c cfg E) (delete_source_volume c cfg vol)
    unfolding delete_source_volume
    delete_source_volume-Good live vol = search (good_rules, erase_volume-Good) depth 20

    pub delete_source_volumes-Good :
        Live cfg
        → (disks : List DiskSpec) → Preserves (Good c cfg E) (delete_source_volumes c cfg disks)
    unfolding delete_source_volumes
    delete_source_volumes-Good live [] = Preserves-pure tt
    delete_source_volumes-Good live (d ∷ rest) =
        Preserves-bind _ _ (delete_source_volume-Good live _)
          (λ _. delete_source_volumes-Good live rest)
