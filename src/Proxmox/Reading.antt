-- ===== src/Proxmox/Reading.antt =====
-- That `capture_vm_spec` of backend/phif/connectors/proxmox/connector.py only looks.
use pure_hypervisor_integrat.Prelude.{String, ◌≡◌, refl, false, none, List, [], ◌∷◌}
use pure_hypervisor_integrat.Prelude.Text.{fstring, includes}
use pure_hypervisor_integrat.Migrate.Spec.{DiskSpec, NicSpec, VmSpec}
use pure_hypervisor_integrat.Proxmox.Session.{
  Outside, Event, ran, slept, said, asked, get_volume, array_volume, is_mock_or_dry, storage_id,
}
use pure_hypervisor_integrat.Proxmox.Doing.{
  Does, Does-pure, Does-raised, Does-bind, Does-then, Does-if, Does-maybe, Does-rescue, Does-modify,
  Does-array_volume, Does-ssh,
}
use pure_hypervisor_integrat.Proxmox.Capture.{
  QmConfig, config_of, volume_part, disk_slot, boot_slots, sizes_of, resolve_fa_volume,
  setting_read, scan, spec_from, capture_vm_spec,
}

-- a look at the VM's settings or at a volume, or a pause
abbrev pub Looks : String → Event → Type 0
Looks vm_ref (ran c) = c.lines ≡ fstring ("qm config " ∷ vm_ref ∷ []) ∷ []
Looks vm_ref (slept n) = Unit
Looks vm_ref (said t) = ⊥
Looks vm_ref (asked (get_volume name)) = Unit
Looks vm_ref (asked call) = ⊥

module _ (o : Outside) (vm_ref : String) where
  abbrev P : Event → Type 0
  P = Looks vm_ref

  resolve-Looks : (vmid volname : String) → Does P (resolve_fa_volume o vmid volname)
  unfolding resolve_fa_volume
  resolve-Looks vmid volname = Does-maybe P o.array _ _ (Does-pure P _) (λ a.
      Does-rescue P (array_volume a _) _ _ (Does-array_volume P a _ tt) (λ v. Does-pure P _)
        (λ exc. Does-pure P _))

  setting-Looks :
      (slots : List String) (key val : String) (disks : List DiskSpec) (nics : List NicSpec)
      → Does P (setting_read o vm_ref slots key val disks nics)
  unfolding setting_read
  setting-Looks slots key val disks nics = Does-maybe P (disk_slot key) _ _ (Does-pure P _) (λ slot.
      Does-if P (includes val (fstring (storage_id o "" ∷ ":" ∷ []))) _ _
        (Does-bind P (resolve_fa_volume o vm_ref (volume_part val)) _
          (resolve-Looks vm_ref (volume_part val)) (λ fa. Does-pure P _))
        (Does-pure P _))

  scan-Looks :
      (slots : List String) (cfg : QmConfig) (disks : List DiskSpec) (nics : List NicSpec)
      → Does P (scan o vm_ref slots cfg disks nics)
  unfolding scan
  scan-Looks slots [] disks nics = Does-pure P _
  scan-Looks slots ((key, val) ∷ rest) disks nics =
      Does-bind P (setting_read o vm_ref slots key val disks nics) _
        (setting-Looks slots key val disks nics)
        (λ (disks', nics'). scan-Looks slots rest disks' nics')

  spec-Looks : (cfg : QmConfig) → Does P (spec_from o vm_ref cfg)
  unfolding spec_from
  spec-Looks cfg = Does-maybe P (sizes_of cfg) _ _ (Does-raised P VmSpec _) (λ sizes.
      Does-then P _ _ (Does-modify P _ (λ s. refl)) (
        Does-bind P (scan o vm_ref (boot_slots cfg) cfg [] []) _
          (scan-Looks (boot_slots cfg) cfg [] []) (λ found. Does-pure P _)))

  -- However a node and the array answer, the capture of a VM runs no other command than `qm config` of
  -- that VM, says nothing, and asks the array for nothing but volumes.
  pub capture_vm_spec-Looks : Does (Looks vm_ref) (capture_vm_spec o vm_ref)
  unfolding capture_vm_spec
  capture_vm_spec-Looks = Does-if P (is_mock_or_dry o) _ _ (Does-pure P _) (
      Does-bind P _ _
        (Does-ssh P o (λ n. tt) (fstring ("qm config " ∷ vm_ref ∷ [])) false none (λ host. refl))
        (λ raw. spec-Looks (config_of raw)))
