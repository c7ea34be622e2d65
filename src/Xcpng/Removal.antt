-- ===== src/Xcpng/Removal.antt =====
-- Detaching of disks and deletion of VMs in backend/phif/connectors/xcpng/connector.py.
use pure_hypervisor_integrat.Prelude.{
  String, Bool, ◌==◌, List, [], ◌∷◌, ◌++◌, length, if◌then◌else◌,
}
use pure_hypervisor_integrat.Prelude.Text.{fstring, str}
use pure_hypervisor_integrat.Migrate.Spec.{DiskSpec}
use pure_hypervisor_integrat.Array.Io.{pure, ◌>>=◌, ◌>>◌}
use pure_hypervisor_integrat.Proxmox.Session.{Outside, Act, emit}
use pure_hypervisor_integrat.Proxmox.Machines.{Result, ok}
use pure_hypervisor_integrat.Xcpng.Records.{Record, value_of, parse_records}
use pure_hypervisor_integrat.Xcpng.Creation.{xe_each}
use pure_hypervisor_integrat.Xcpng.Machines.{xe, xe_get}
use pure_hypervisor_integrat.Xcpng.Capture.{absent_vdi}

module _ (o : Outside) where
  -- the loop of `detach_volumes`
  unfoldable pub detach_vbds : String → List DiskSpec → Act (Unit {0})
  unfolding ◌>>=◌ xe_get xe_each
  detach_vbds vm_ref [] = pure tt
  detach_vbds vm_ref (disk ∷ disks) =
      let rest = detach_vbds vm_ref disks in
      let vbd = disk.source_ref in
      if vbd == "" then rest else do
        vdi ← xe_get o "vbd" vbd "vdi-uuid"
        xe_each o (
            fstring ("xe vbd-unplug uuid=" ∷ vbd ∷ [])
            ∷ fstring ("xe vbd-destroy uuid=" ∷ vbd ∷ [])
            ∷ (if absent_vdi vdi then [] else fstring ("xe vdi-forget uuid=" ∷ vdi ∷ []) ∷ []))
        emit (fstring ("Detached VBD " ∷ vbd ∷ " from VM " ∷ vm_ref ∷ []))
        rest

  -- `detach_volumes`
  unfoldable pub detach_from_pool_vm : String → List DiskSpec → Act Result
  unfolding ◌>>=◌ detach_vbds str
  detach_from_pool_vm vm_ref disks =
      detach_vbds vm_ref disks
      >> pure (ok (fstring ("Detached " ∷ str (length disks) ∷ " disk(s) from VM " ∷ vm_ref ∷ [])))

  -- the loop of `delete_vm` over the virtual block devices
  unfoldable pub forget_each : List Record → Act (Unit {0})
  unfolding ◌>>=◌ xe_each
  forget_each [] = pure tt
  forget_each (r ∷ rs) =
      let rest = forget_each rs in
      let vbd = value_of "uuid" r in
      let vdi = value_of "vdi-uuid" r in
      xe_each o (
        (if vbd == "" then [] else fstring ("xe vbd-destroy uuid=" ∷ vbd ∷ []) ∷ [])
        ++ (if absent_vdi vdi then [] else fstring ("xe vdi-forget uuid=" ∷ vdi ∷ []) ∷ []))
      >> rest

  -- `delete_vm`
  unfoldable pub delete_pool_vm : String → Bool → Act Result
  unfolding ◌>>=◌ xe forget_each parse_records
  delete_pool_vm vm_ref keep_disks = do
    if keep_disks
        then (xe o
              (fstring ("xe vbd-list vm-uuid=" ∷ vm_ref ∷ " type=Disk params=uuid,vdi-uuid" ∷ []))
            >>= λ out. forget_each (parse_records out))
        else pure tt
    destroyed ← xe o (fstring ("xe vm-destroy uuid=" ∷ vm_ref ∷ []))
    pure (ok (fstring ("Deleted VM " ∷ vm_ref ∷ [])))
