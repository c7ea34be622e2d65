-- ===== src/Migrate/Ledger/Defs.antt =====
-- What the record of a migration may hold: which call is allowed after which events.
use pure_hypervisor_integrat.Prelude.{◌≡◌, ◌⊎◌, true, false, [], ◌∷◌, All, Any}
use pure_hypervisor_integrat.Migrate.World.{
  source, dest, Call, succeeded, Event, called, observed, Trace, Connectors, prepare_source_disks,
  create_vm, stop_vm, start_vm, delete_vm, create_managed_disk, connect_to_array,
  replicate_volume_to, copy_volume, finalize_destination_disks, convert_disks_to_native,
  set_boot_order, disconnect_volume_from_group, delete_volume,
}
use pure_hypervisor_integrat.Migrate.Act.{Undo, remove_pgroup, State}
use pure_hypervisor_integrat.Migrate.Service.{Config, is_move, dry_run, is_mock}

module _ (cfg : Config) where
  -- the source VM's deletion, with its disks kept, has succeeded
  abbrev pub Removed : Trace → Type 0
  Removed = Any (λ e. e ≡ called (delete_vm source cfg.vm_ref true) succeeded)

  -- the source VM was seen stopped, or in a state that its connector does not know
  abbrev pub AtRest : Trace → Type 0
  AtRest =
      Any (λ e.
        (e ≡ observed source cfg.vm_ref "stopped") ⊎ (e ≡ observed source cfg.vm_ref "unknown"))

  -- not a dry run
  abbrev pub Live : Type 0
  Live = dry_run cfg ≡ false

module _ (c : Connectors) (cfg : Config) where
  -- before a copy: the source of a move is at rest, unless its connector is a mock
  abbrev pub Quiet : Trace → Type 0
  Quiet t = is_move cfg ≡ true → is_mock c source ≡ false → AtRest cfg t

  -- when a call may be made, by what has happened before
  abbrev pub Permitted : Call → Trace → Type 0
  Permitted (prepare_source_disks v) t = Live cfg
  Permitted (create_vm v m p) t = Live cfg
  Permitted (stop_vm side ref force) t = Live cfg
  Permitted (start_vm side ref) t = Live cfg
  Permitted (delete_vm source ref keep) t =
      Live cfg × (is_move cfg ≡ true) × (ref ≡ cfg.vm_ref) × (keep ≡ true)
  Permitted (delete_vm dest ref keep) t = Live cfg
  Permitted (create_managed_disk ref size order boot) t = Live cfg
  Permitted (connect_to_array endpoint key addresses) t = Live cfg
  Permitted (replicate_volume_to vol there pg) t = Live cfg × Quiet t
  Permitted (copy_volume from to overwrite) t = Live cfg × Quiet t
  Permitted (finalize_destination_disks ref disks) t = Live cfg
  Permitted (convert_disks_to_native ref disks ds) t = Live cfg
  Permitted (set_boot_order ref disks) t = Live cfg
  Permitted (disconnect_volume_from_group hg vol) t =
      Live cfg × (is_move cfg ≡ true) × Removed cfg t
  Permitted (delete_volume vol eradicate) t = Live cfg × (is_move cfg ≡ true) × Removed cfg t
  Permitted _ t = Unit

  abbrev pub Fits : Event → Trace → Type 0
  Fits (called call o) t = Permitted call t
  Fits _ t = Unit

  -- every call was allowed when it was made
  abbrev pub Orderly : Trace → Type 0
  Orderly [] = Unit
  Orderly (e ∷ t) = Fits e t × Orderly t

  -- what the rollback stack may hold: in a dry run only the removal of a protection group
  abbrev pub Undoable : Undo → Type 0
  Undoable (remove_pgroup pg) = Unit
  Undoable _ = Live cfg

  -- the invariant of a migration, with something more that is known of the past
  pub record Good (E : Trace → Type 0) (s : State) : Type 0 where
    pub orderly : Orderly s.trace
    pub undoable : All (λ e. Undoable e.undo) s.rollback
    pub extra : E s.trace
