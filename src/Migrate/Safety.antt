-- ===== src/Migrate/Safety.antt =====
-- What no migration does, whatever the connectors answer: theorems about every record of
-- `MigrationService.run`.
use pure_hypervisor_integrat.Prelude.{◌≡◌, true, false, [], ◌∷◌, arith}
use pure_hypervisor_integrat.Migrate.World.{
  source, dest, Call, called, Trace, Connectors, prepare_source_disks, create_vm, stop_vm, start_vm,
  delete_vm, create_managed_disk, connect_to_array, replicate_volume_to, copy_volume,
  finalize_destination_disks, convert_disks_to_native, set_boot_order, disconnect_volume_from_group,
  delete_volume,
}
use pure_hypervisor_integrat.Migrate.Service.{Config, is_move, dry_run, is_mock, fresh}
use pure_hypervisor_integrat.Migrate.Run.{run}
use pure_hypervisor_integrat.Migrate.Ledger.Defs.{Permitted, Orderly, Removed, AtRest}
use pure_hypervisor_integrat.Migrate.Ledger.Whole.{run-Orderly}

-- a call that changes neither a VM nor an array, or that only clears away temporary artifacts
abbrev pub Harmless : Call → Type 0
Harmless (prepare_source_disks v) = ⊥
Harmless (create_vm v m p) = ⊥
Harmless (stop_vm side ref force) = ⊥
Harmless (start_vm side ref) = ⊥
Harmless (delete_vm side ref keep) = ⊥
Harmless (create_managed_disk ref size order boot) = ⊥
Harmless (connect_to_array endpoint key addresses) = ⊥
Harmless (replicate_volume_to vol there pg) = ⊥
Harmless (copy_volume from to overwrite) = ⊥
Harmless (finalize_destination_disks ref disks) = ⊥
Harmless (convert_disks_to_native ref disks ds) = ⊥
Harmless (set_boot_order ref disks) = ⊥
Harmless (disconnect_volume_from_group hg vol) = ⊥
Harmless (delete_volume vol eradicate) = ⊥
Harmless _ = Unit

-- a call that leaves the source VM and the source's volumes in being
abbrev pub Sparing : Call → Type 0
Sparing (delete_vm source ref keep) = ⊥
Sparing (delete_vm dest ref keep) = Unit
Sparing (disconnect_volume_from_group hg vol) = ⊥
Sparing (delete_volume vol eradicate) = ⊥
Sparing _ = Unit

-- what the deletion of a volume, and its removal from the host group, need of what happened before
abbrev pub NeedsRemoval : Config → Call → Trace → Type 0
NeedsRemoval cfg (disconnect_volume_from_group hg vol) earlier =
    (dry_run cfg ≡ false) × (is_move cfg ≡ true) × Removed cfg earlier
NeedsRemoval cfg (delete_volume vol eradicate) earlier =
    (dry_run cfg ≡ false) × (is_move cfg ≡ true) × Removed cfg earlier
NeedsRemoval cfg _ earlier = Unit

-- what a read of the source's volumes needs in a move
abbrev pub NeedsRest : Config → Call → Trace → Type 0
NeedsRest cfg (replicate_volume_to vol there pg) earlier = AtRest cfg earlier
NeedsRest cfg (copy_volume from to overwrite) earlier = AtRest cfg earlier
NeedsRest cfg _ earlier = Unit

-- every call of a record satisfies `P` of itself and of what had happened before it
abbrev pub Whenever : (Call → Trace → Type 0) → Trace → Type 0
Whenever P [] = Unit
Whenever P (called call o ∷ t) = P call t × Whenever P t
Whenever P (_ ∷ t) = Whenever P t

module _ (c : Connectors) (cfg : Config) where
  every_call :
      (P : Call → Trace → Type 0)
      → ((call : Call) (t : Trace) → Permitted c cfg call t → P call t)
      → (t : Trace) → Orderly c cfg t
      → Whenever P t
  every_call P allows [] h = tt
  every_call P allows (called call o ∷ t) h = (allows call t h.0, every_call P allows t h.1)
  every_call P allows (_ ∷ t) h = every_call P allows t h.1

  Permitted-NeedsRemoval :
      (call : Call) (t : Trace) → Permitted c cfg call t → NeedsRemoval cfg call t
  Permitted-NeedsRemoval (delete_volume vol eradicate) t h = h
  Permitted-NeedsRemoval (disconnect_volume_from_group hg vol) t h = h
  Permitted-NeedsRemoval _ t h = tt

  -- Whenever a run deletes a volume or disconnects one from its host group, it is a move and no dry
  -- run, and the deletion of the source VM, with its disks kept, had succeeded before.
  pub volume_deleted_only_after_removal : Whenever (NeedsRemoval cfg) (run c cfg fresh).1.trace
  volume_deleted_only_after_removal =
      every_call (NeedsRemoval cfg) Permitted-NeedsRemoval _ (run-Orderly c cfg)

  Permitted-NeedsRest :
      is_move cfg ≡ true
      → is_mock c source ≡ false
      → (call : Call) (t : Trace) → Permitted c cfg call t
      → NeedsRest cfg call t
  Permitted-NeedsRest move real (replicate_volume_to vol there pg) t h = h.1 move real
  Permitted-NeedsRest move real (copy_volume from to overwrite) t h = h.1 move real
  Permitted-NeedsRest move real _ t h = tt

  -- In a move whose source connector is no mock, whenever the run replicates a volume or copies one
  -- onto a destination volume, the source VM had been seen stopped, or in a state that its connector
  -- does not know, before that call.
  pub copy_only_at_rest :
      is_move cfg ≡ true
      → is_mock c source ≡ false
      → Whenever (NeedsRest cfg) (run c cfg fresh).1.trace
  copy_only_at_rest move real =
      every_call (NeedsRest cfg) (Permitted-NeedsRest move real) _ (run-Orderly c cfg)

  Permitted-Harmless :
      dry_run cfg ≡ true → (call : Call) (t : Trace) → Permitted c cfg call t → Harmless call
  Permitted-Harmless dry (delete_vm source ref keep) t h = ground arith
  Permitted-Harmless dry (delete_vm dest ref keep) t h = ground arith
  Permitted-Harmless dry _ t h = ground arith

  -- A dry run makes no call that changes a VM or an array, but the two that clear away temporary
  -- artifacts: the source connector's scratch and the protection group of a replication.
  pub dry_run-Harmless :
      dry_run cfg ≡ true → Whenever (λ call _. Harmless call) (run c cfg fresh).1.trace
  dry_run-Harmless dry =
      every_call (λ call _. Harmless call) (Permitted-Harmless dry) _ (run-Orderly c cfg)

  Permitted-Sparing :
      is_move cfg ≡ false → (call : Call) (t : Trace) → Permitted c cfg call t → Sparing call
  Permitted-Sparing copy (delete_vm source ref keep) t h = ground arith
  Permitted-Sparing copy (delete_vm dest ref keep) t h = ground arith
  Permitted-Sparing copy _ t h = ground arith

  -- A migration whose mode is not a move never deletes the source VM, and never disconnects or deletes
  -- a volume of the source.
  pub copy-Sparing :
      is_move cfg ≡ false → Whenever (λ call _. Sparing call) (run c cfg fresh).1.trace
  copy-Sparing copy =
      every_call (λ call _. Sparing call) (Permitted-Sparing copy) _ (run-Orderly c cfg)
