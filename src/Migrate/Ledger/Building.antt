-- ===== src/Migrate/Ledger/Building.antt =====
-- The invariant of a migration through the steps that build the destination and switch the VMs.
use pure_hypervisor_integrat.Prelude.{true, ◌==◌, ℕ, zero, suc, String, List, [], ◌∷◌}
use pure_hypervisor_integrat.Migrate.Spec.{DiskSpec, VmSpec}
use pure_hypervisor_integrat.Migrate.World.{dest, slept, Event, Trace, Connectors}
use pure_hypervisor_integrat.Migrate.Service.{Config}
use pure_hypervisor_integrat.Migrate.Destination.{
  ensure_unique_dest_name, plan_dest_vm, make_dest_vm, create_dest_vm,
}
use pure_hypervisor_integrat.Migrate.Disks.{
  make_disk, replicate, copy_source, overwrite, build_disk, build_disks, plan_pgroup,
  build_destination_disks, finalize_dest_disks, convert_dest_disks, set_boot,
}
use pure_hypervisor_integrat.Migrate.Power.{
  stop_source, quiesce_source, see_running, start_until_running, power_on, power_on_dest,
}
use pure_hypervisor_integrat.Migrate.Ledger.Defs.{Live, Quiet, Good}
use pure_hypervisor_integrat.Migrate.Ledger.Rules.{
  Preserves, Preserves-pure, Preserves-bind, Preserves-if, Preserves-happen, Preserves-observe,
  good_rules,
}
use pure_hypervisor_integrat.Migrate.Ledger.Looking.{await_power-Good}

module _ {c : Connectors} {cfg : Config} {E : Trace → Type 0}
    (grow : (e : Event) (t : Trace) → E t → E (e ∷ t)) where
  ensure_unique_dest_name-Good : Preserves (Good c cfg E) (ensure_unique_dest_name c)
  unfolding ensure_unique_dest_name
  ensure_unique_dest_name-Good = search good_rules depth 20

  plan_dest_vm-Good : (v : VmSpec) → Preserves (Good c cfg E) (plan_dest_vm c cfg v)
  unfolding plan_dest_vm
  plan_dest_vm-Good v = search good_rules depth 20

  make_dest_vm-Good : (v : VmSpec) → Live cfg → Preserves (Good c cfg E) (make_dest_vm c cfg v)
  unfolding make_dest_vm
  make_dest_vm-Good v live = search good_rules depth 20

  pub create_dest_vm-Good : Preserves (Good c cfg E) (create_dest_vm c cfg)
  unfolding create_dest_vm
  create_dest_vm-Good =
      search (good_rules, ensure_unique_dest_name-Good, plan_dest_vm-Good, make_dest_vm-Good) depth
        20

  stop_source-Good : Preserves (Good c cfg E) (stop_source c cfg)
  unfolding stop_source
  stop_source-Good = search (good_rules, await_power-Good) depth 20

  pub quiesce_source-Good : Preserves (Good c cfg E) (quiesce_source c cfg)
  unfolding quiesce_source
  quiesce_source-Good = search (good_rules, stop_source-Good) depth 20

  see_running-Good :
      (ref : String) (delay left : ℕ) → Preserves (Good c cfg E) (see_running c cfg ref delay left)
  unfolding see_running
  see_running-Good ref delay zero = search good_rules
  see_running-Good ref delay (suc left) =
      Preserves-bind _ _ (Preserves-observe grow dest ref "") λ state.
        Preserves-if (state == "running") _ _ (λ _. Preserves-pure true)
          λ _.
            Preserves-bind _ _ (Preserves-happen grow (slept delay) (λ t. tt))
              λ _. see_running-Good ref delay left

  start_until_running-Good :
      (ref : String) (polls delay attempts i left : ℕ)
      → Live cfg
      → Preserves (Good c cfg E) (start_until_running c cfg ref polls delay attempts i left)
  unfolding start_until_running
  start_until_running-Good ref polls delay attempts i zero live = search good_rules
  start_until_running-Good ref polls delay attempts i (suc left) live =
      search
        (
          good_rules,
          see_running-Good,
          λ (j : ℕ). start_until_running-Good ref polls delay attempts j left live,
        )
        depth 20

  power_on-Good : (ref : String) → Preserves (Good c cfg E) (power_on c cfg ref)
  unfolding power_on
  power_on-Good ref = search (good_rules, start_until_running-Good) depth 20

  pub power_on_dest-Good : Preserves (Good c cfg E) (power_on_dest c cfg)
  unfolding power_on_dest
  power_on_dest-Good = search (good_rules, power_on-Good) depth 20

  pub finalize_dest_disks-Good : Preserves (Good c cfg E) (finalize_dest_disks c cfg)
  unfolding finalize_dest_disks
  finalize_dest_disks-Good = search good_rules depth 20

  pub convert_dest_disks-Good : Preserves (Good c cfg E) (convert_dest_disks c cfg)
  unfolding convert_dest_disks
  convert_dest_disks-Good = search good_rules depth 20

  pub set_boot-Good : (disks : List DiskSpec) → Preserves (Good c cfg E) (set_boot c cfg disks)
  unfolding set_boot
  set_boot-Good disks = search good_rules depth 20

  make_disk-Good : (ref : String) (d : DiskSpec) → Preserves (Good c cfg E) (make_disk c cfg ref d)
  unfolding make_disk
  make_disk-Good ref d = search good_rules depth 20

  plan_pgroup-Good : (pg : String) → Preserves (Good c cfg E) (plan_pgroup c cfg pg)
  unfolding plan_pgroup
  plan_pgroup-Good pg = search good_rules depth 20

  -- the steps that read the source's volumes
  module _ (quiet : (t : Trace) → E t → Live cfg → Quiet c cfg t) where
    replicate-Good : (pg : String) (d : DiskSpec) → Preserves (Good c cfg E) (replicate c cfg pg d)
    unfolding replicate
    replicate-Good pg d = search good_rules depth 20

    copy_source-Good :
        (pg : String) (d : DiskSpec) → Preserves (Good c cfg E) (copy_source c cfg pg d)
    unfolding copy_source
    copy_source-Good pg d = search (good_rules, replicate-Good)

    overwrite-Good : (from to : String) → Preserves (Good c cfg E) (overwrite c cfg from to)
    unfolding overwrite
    overwrite-Good from to = search good_rules depth 20

    build_disks-Good :
        (ref pg : String) (disks : List DiskSpec)
        → Preserves (Good c cfg E) (build_disks c cfg ref pg disks)
    unfolding build_disks build_disk
    build_disks-Good ref pg [] = search good_rules
    build_disks-Good ref pg (d ∷ rest) =
        search
          (
            good_rules,
            make_disk-Good,
            copy_source-Good,
            overwrite-Good,
            λ (r : String). build_disks-Good r pg rest,
          )
          depth 20

    pub build_destination_disks-Good : Preserves (Good c cfg E) (build_destination_disks c cfg)
    unfolding build_destination_disks
    build_destination_disks-Good = search (good_rules, plan_pgroup-Good, build_disks-Good) depth 20
