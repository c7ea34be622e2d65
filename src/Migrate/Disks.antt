-- ===== src/Migrate/Disks.antt =====
-- The steps of migrate/service.py that build the destination's disks, with the copied data, and set
-- the boot order.
use Prim.Native.String.{◌++◌ as ◌<>◌}
use pure_hypervisor_integrat.Prelude.{
  String, true, none, some, List, [], ◌∷◌, ◌++◌, ◌==◌, if◌then◌else◌, given, number_or,
}
use pure_hypervisor_integrat.Prelude.Text.{fstring, str}
use pure_hypervisor_integrat.Migrate.Spec.{DiskSpec}
use pure_hypervisor_integrat.Migrate.World.{
  dest, migration_error, Connectors, slept, create_managed_disk, replicate_volume_to, copy_volume,
  finalize_destination_disks, convert_disks_to_native, set_boot_order,
}
use pure_hypervisor_integrat.Migrate.Act.{
  Act, remove_pgroup, pure, gets, modify, require, happen, emit, perform, judged, returned, push,
  ◌>>=◌, ◌>>◌,
}
use pure_hypervisor_integrat.Migrate.Service.{
  Config, cross_array, dry_run, phase, skip, is_mock, the_spec, the_dest_ref,
}

-- `volume.split("/")[-1]`, after the characters `seen` of the last part
unfoldable pub last_segment : String → String → String
last_segment seen String.[] = seen
last_segment seen (String.◌∷◌ ch rest) =
    last_segment
      (if fstring (String.◌∷◌ ch String.[] ∷ []) == "/"
        then ""
        else seen <> String.◌∷◌ ch String.[])
      rest

module _ (c : Connectors) (cfg : Config) where
  -- `_await_replication`: no wait for a mock destination
  unfoldable pub await_replication : Act (Unit {0})
  await_replication =
      if is_mock c dest
      then pure tt
      else happen (slept (number_or cfg.options.replication_settle 5000))

  -- the managed disk on the destination: the name of its volume
  unfoldable pub make_disk : String → DiskSpec → Act String
  make_disk ref d = do
    let size = number_or d.identity.size_bytes 0
    let call = create_managed_disk ref size d.order d.boot
    let plan = do
      emit (
          fstring (
            "[dry-run] would create destination disk "
            ∷ str d.order
            ∷ " ("
            ∷ str size
            ∷ " B) and receive a backing volume for it"
            ∷ []))
      pure (fstring ("dry-run-dest-" ∷ ref ∷ "-disk" ∷ str d.order ∷ []))
    if dry_run cfg then plan else perform call returned (λ t. c.answer t call)

  -- the volume to copy from, on the destination's array: the replica in a cross-array migration
  unfoldable pub replicate : String → DiskSpec → Act String
  unfolding await_replication
  replicate pg d = do
    let vol = d.identity.fa_volume
    (here, there) ← gets (λ s. (s.src_array_name, s.dst_array_name))
    skipped ←
        skip cfg (fstring ("replicate " ∷ vol ∷ " to " ∷ there ∷ " and await the replica" ∷ []))
    if skipped then pure vol else do
      let call = replicate_volume_to vol there pg
      suffix ← perform call returned (λ t. c.answer t call)
      await_replication
      pure (fstring (here ∷ ":" ∷ pg ∷ "." ∷ suffix ∷ "." ∷ last_segment "" vol ∷ []))

  unfoldable pub copy_source : String → DiskSpec → Act String
  unfolding replicate
  copy_source pg d = if cross_array cfg then replicate pg d else pure d.identity.fa_volume

  -- the overwrite of the destination's volume
  unfoldable pub overwrite : String → String → Act (Unit {0})
  overwrite from to = do
    skipped ← skip cfg (fstring ("copy " ∷ from ∷ " -> " ∷ to ∷ " (overwrite)" ∷ []))
    if skipped then pure tt else do
      perform (copy_volume from to true) returned (λ t. c.effect t (copy_volume from to true))
      emit (
          fstring (
            "[migrate] copied " ∷ from ∷ " -> " ∷ to ∷ " (overwrite; source volume untouched)"
            ∷ []))

  abbrev pub managed : DiskSpec → String → DiskSpec
  managed d vol = record d {
    identity = record { fa_volume = vol; serial = none; wwid = none; size_bytes = none };
  }

  -- the body of the loop of `_build_destination_disks`
  unfoldable pub build_disk : String → String → DiskSpec → Act (Unit {0})
  unfolding make_disk copy_source overwrite
  build_disk ref pg d = do
    vol ← make_disk ref d
    modify (λ s. record s { dest_disks = s.dest_disks ++ (managed d vol ∷ []) })
    from ← copy_source pg d
    overwrite from vol

  unfoldable pub build_disks : String → String → List DiskSpec → Act (Unit {0})
  build_disks ref pg [] = pure tt
  build_disks ref pg (d ∷ rest) = do build_disk ref pg d; build_disks ref pg rest

  abbrev pub pgroup_label : String
  pgroup_label = "remove replication protection group"

  -- the protection group of a cross-array migration, with its compensation
  unfoldable pub plan_pgroup : String → Act (Unit {0})
  plan_pgroup pg =
      if cross_array cfg
      then (do
        modify (λ s. record s { repl_pgroup = some pg })
        push pgroup_label (remove_pgroup pg))
      else pure tt

  -- `_build_destination_disks`
  unfoldable pub build_destination_disks : Act (Unit {0})
  unfolding plan_pgroup
  build_destination_disks = do
    phase "create destination disk(s) + copy data"
    v ← the_spec
    ref ← the_dest_ref
    let pg = fstring ("phifmig-" ∷ ref ∷ [])
    plan_pgroup pg
    modify (λ s. record s { dest_disks = [] })
    build_disks ref pg v.disks

  -- `_finalize_dest_disks`
  unfoldable pub finalize_dest_disks : Act (Unit {0})
  finalize_dest_disks = do
    ref ← the_dest_ref
    skipped ← skip cfg "reconcile destination disks with their backing volumes"
    if skipped then pure tt else do
      disks ← gets (λ s. s.dest_disks)
      let call = finalize_destination_disks ref disks
      r ← perform call judged (λ t. c.reply t call)
      require r.success
          (migration_error (fstring ("failed to finalize destination disks: " ∷ r.message ∷ [])))

  -- `_convert_dest_disks`
  unfoldable pub convert_dest_disks : Act (Unit {0})
  convert_dest_disks = do
    ref ← the_dest_ref
    phase "convert destination disks to VMFS (XCOPY) + free FA volumes"
    skipped ← skip cfg "convert destination disks to native format"
    if skipped then pure tt else do
      disks ← gets (λ s. s.dest_disks)
      let ds =
          if given cfg.options.vmfs_datastore
          then cfg.options.vmfs_datastore
          else cfg.options.dest_storage
      let call = convert_disks_to_native ref disks ds
      r ← perform call judged (λ t. c.reply t call)
      require r.success
          (migration_error (fstring ("RDM→VMFS conversion failed: " ∷ r.message ∷ [])))
      emit (fstring ("[convert] " ∷ r.message ∷ []))

  -- `_set_boot`
  unfoldable pub set_boot : List DiskSpec → Act (Unit {0})
  set_boot disks = do
    phase "set destination boot order"
    ref ← the_dest_ref
    skipped ← skip cfg "set the destination boot order"
    if skipped then pure tt else do
      r ← perform (set_boot_order ref disks) judged (λ t. c.reply t (set_boot_order ref disks))
      require r.success (migration_error (fstring ("failed to set boot order: " ∷ r.message ∷ [])))
