-- ===== src/Proxmox/Disks.antt =====
-- The disks of a VM in backend/phif/connectors/proxmox/connector.py: attaching volumes, a new disk on the
-- purefa storage, the name of a copy's target. The loop for a free name runs on fuel.
use pure_hypervisor_integrat.Prelude.{
  ℕ, zero, suc, ◌+◌, ◌/◌, max, String, false, ◌&&◌, ◌||◌, ◌==◌, Option, none, some, List, [], ◌∷◌,
  ◌++◌, map, maybe, length, is_empty, text_or, given, if◌then◌else◌,
}
use pure_hypervisor_integrat.Prelude.Text.{
  fstring, join, lower, repr, str, strip, starts_with, includes,
}
use pure_hypervisor_integrat.Prelude.Cuts.{cut, before, after_last, first_chars, lines}
use pure_hypervisor_integrat.Migrate.Spec.{DiskSpec, scsi_wwid}
use pure_hypervisor_integrat.Host.Multipath.{wwids_for, refresh_block_devices}
use pure_hypervisor_integrat.Array.Io.{pure, ◌>>=◌, ◌>>◌}
use pure_hypervisor_integrat.Proxmox.Names.{pve_slot, pve_bus, purefa_error}
use pure_hypervisor_integrat.Proxmox.Session.{
  Outside, FlashArray, Act, ensure_volume_group, emit, look, raised, rescue, is_mock_or_dry,
  protocol, storage_id, ssh, ssh_script, array_act, array_exists, array_volume,
}
use pure_hypervisor_integrat.Proxmox.Machines.{Result, ok, fail, boot_first}
use pure_hypervisor_integrat.Proxmox.Capture.{resolve_fa_volume}

-- f"{vg}/vm-{dest_vm_ref}-disk-{idx}"
unfoldable pub copy_name : String → ℕ → String
unfolding str
copy_name vm_ref idx = fstring ("vm-" ∷ vm_ref ∷ "/vm-" ∷ vm_ref ∷ "-disk-" ∷ str idx ∷ [])

-- the first number, from `idx` on, whose name the array does not have
unfoldable pub free_copy : FlashArray → String → ℕ → ℕ → Act ℕ
unfolding ◌>>=◌ copy_name
free_copy a vm_ref zero idx = pure idx
free_copy a vm_ref (suc fuel) idx =
    let next = free_copy a vm_ref fuel (suc idx) in
    do taken ← array_exists a (copy_name vm_ref idx); if taken then next else pure idx

-- the device of a volume's serial, if the array knows one
unfoldable pub array_serial : Option FlashArray → String → Act String
unfolding ◌>>=◌
array_serial none fa = pure ""
array_serial (some a) fa =
    array_volume a fa >>= λ v. pure (maybe v "" (λ serial. text_or serial ""))

-- a line of an output that shows an error of the purefa plugin
unfoldable pub first_error : List String → Option String
unfolding lower includes purefa_error strip
first_error [] = none
first_error (ln ∷ rest) =
    let later = first_error rest in
    if includes (lower ln) "purefa" && purefa_error ln then some (strip ln) else later

unfoldable pub last_line : List String → Option String
last_line [] = none
last_line (ln ∷ []) = some ln
last_line (ln ∷ next ∷ rest) = last_line (next ∷ rest)

-- why a disk was not created, as the outputs tell
unfoldable pub failure_detail : String → String → String
unfolding first_error last_line first_chars lines strip
failure_detail out cfg =
    let error = first_error (lines (fstring (out ∷ "\n" ∷ cfg ∷ []))) in
    if given error
    then text_or error ""
    else first_chars 200 (maybe (last_line (lines (strip out))) "no disk created" (λ ln. ln))

-- the name of the volume that the settings name for the slot; empty if there is none
unfoldable pub allocated : String → String → List String → String
unfolding starts_with includes cut before strip
allocated slot storage [] = ""
allocated slot storage (line ∷ rest) =
    let later = allocated slot storage rest in
    let ref = before 44 (strip (maybe (cut 58 line) "" (λ p. p.1))) in
    if starts_with line (fstring (slot ∷ ":" ∷ [])) && includes line (fstring (storage ∷ ":" ∷ []))
    then maybe (cut 58 ref) ref (λ p. p.1)
    else later

module _ (o : Outside) where
  -- `prepare_copy_target`, with so many rounds of its loop at most
  unfoldable pub prepare_copy_target : ℕ → ℕ → String → Act String
  unfolding ◌>>=◌ free_copy copy_name
  prepare_copy_target fuel order vm_ref = maybe o.array (pure (copy_name vm_ref order)) (λ a. do
    idx ← free_copy a vm_ref fuel order
    array_act a (ensure_volume_group (fstring ("vm-" ∷ vm_ref ∷ [])))
    pure (copy_name vm_ref idx))

  -- the serial of one disk's volume, if there is one
  unfoldable pub serial_of : FlashArray → DiskSpec → Act (List String)
  serial_of a d =
      rescue (array_volume a d.identity.fa_volume)
        (λ v. pure (maybe v [] (λ serial. if given serial then text_or serial "" ∷ [] else [])))
        (λ exc. pure [])

  unfoldable pub serials_of : FlashArray → List DiskSpec → Act (List String)
  unfolding ◌>>=◌ serial_of
  serials_of a [] = pure []
  serials_of a (d ∷ disks) =
      let rest = serials_of a disks in do one ← serial_of a d; more ← rest; pure (one ++ more)

  -- `_disk_wwids`
  unfoldable pub disk_wwids : List DiskSpec → Act (List String)
  unfolding ◌>>=◌ serials_of wwids_for
  disk_wwids disks =
      maybe o.array (pure []) (λ a. serials_of a disks >>= λ serials. pure (wwids_for serials))

  -- the commands of the refresh, each within its limit
  unfoldable pub run_each : List (String × ℕ) → Act (Unit {0})
  unfolding ◌>>=◌ ssh
  run_each [] = pure tt
  run_each ((command, limit) ∷ rest) =
      let later = run_each rest in ssh o command false (some limit) >>= λ out. later

  -- one volume; `some r` if the function returns `r` there
  unfoldable pub attach_one : String → DiskSpec → Act (Option Result)
  unfolding ◌>>=◌ pve_slot cut before after_last storage_id ssh_script scsi_wwid array_serial
  attach_one vm_ref disk =
      let slot = pve_slot disk in
      let fa = disk.identity.fa_volume in
      let vg = maybe (cut 47 fa) "" (λ p. p.0) in
      if vg == "" || vg == fstring ("vm-" ∷ vm_ref ∷ [])
      then (do
        out ←
            ssh_script o
              (fstring (
                  "qm set "
                  ∷ vm_ref
                  ∷ " --"
                  ∷ slot
                  ∷ " "
                  ∷ storage_id o ""
                  ∷ ":"
                  ∷ after_last 47 fa
                  ∷ [])
                ∷ [])
              false (some 120)
        emit (
            fstring (
              "Attached "
              ∷ after_last 47 fa
              ∷ " to VM "
              ∷ vm_ref
              ∷ " as "
              ∷ slot
              ∷ " (purefa)"
              ∷ []))
        pure none)
      else do
        serial ← array_serial o.array fa
        let dev = fstring ("/dev/mapper/" ∷ scsi_wwid (some serial) ∷ [])
        if serial == ""
            then pure (
                some (
                  fail (
                    fstring
                      ("could not resolve a device for " ∷ repr fa ∷ " (no array serial)" ∷ []))))
            else (do
              out ←
                  ssh_script o (fstring ("qm set " ∷ vm_ref ∷ " --" ∷ slot ∷ " " ∷ dev ∷ []) ∷ [])
                    false (some 120)
              emit (
                  fstring (
                    "Attached " ∷ fa ∷ " to VM " ∷ vm_ref ∷ " as " ∷ slot ∷ " (raw device " ∷ dev
                    ∷ ")" ∷ []))
              pure none)

  unfoldable pub attach_each : String → List DiskSpec → Act (Option Result)
  unfolding ◌>>=◌ attach_one
  attach_each vm_ref [] = pure none
  attach_each vm_ref (d ∷ disks) =
      let rest = attach_each vm_ref disks in
      do ended ← attach_one vm_ref d; maybe ended rest (λ r. pure (some r))

  -- the boot order is set to what the connector has captured, or else to the boot disk before the others
  unfoldable pub restore_boot : String → List DiskSpec → Act (Unit {0})
  unfolding ◌>>=◌ boot_first pve_slot ssh
  restore_boot vm_ref disks = do
    captured ← look (λ s. s.boot_order)
    let slots = join ";" (map pve_slot (boot_first disks))
    let fresh = if is_empty disks then "" else fstring ("order=" ∷ slots ∷ [])
    let boot = if captured == "" then fresh else captured
    if boot == "" then pure tt else (do
      out ← ssh o (fstring ("qm set " ∷ vm_ref ∷ " --boot '" ∷ boot ∷ "'" ∷ [])) false (some 60)
      emit (fstring ("Restored boot order on VM " ∷ vm_ref ∷ ": " ∷ boot ∷ [])))

  -- `attach_existing_volumes`
  unfoldable pub attach_existing_volumes : String → List DiskSpec → Act Result
  unfolding ◌>>=◌ disk_wwids run_each refresh_block_devices protocol attach_each restore_boot
  attach_existing_volumes vm_ref disks = do
    wwids ← disk_wwids disks
    run_each (refresh_block_devices (some (protocol o)) wwids)
    ended ← attach_each vm_ref disks
    maybe ended
        (restore_boot vm_ref disks
          >> pure
              (ok (fstring ("Attached " ∷ str (length disks) ∷ " disk(s) to VM " ∷ vm_ref ∷ []))))
        pure

  -- `max(1, -(-size // 2**30))`
  unfoldable pub gib_of : ℕ → ℕ
  gib_of size = max 1 ((size + 1073741823) / 1073741824)

  -- what `create_managed_disk` does with the outputs of its commands
  unfoldable pub disk_created : String → String → ℕ → String → String → Act String
  unfolding ◌>>=◌ allocated lines storage_id failure_detail resolve_fa_volume str
  disk_created vm_ref slot gib out cfg =
      let volname = allocated slot (storage_id o "") (lines cfg) in
      if volname == ""
      then raised (
          fstring (
            "failed to create managed disk on VM "
            ∷ vm_ref
            ∷ " ("
            ∷ slot
            ∷ "): "
            ∷ failure_detail out cfg
            ∷ []))
      else do
        fa ← resolve_fa_volume o vm_ref volname
        emit (
            fstring (
              "Created managed disk "
              ∷ fa
              ∷ " ("
              ∷ str gib
              ∷ "G) on VM "
              ∷ vm_ref
              ∷ " as "
              ∷ slot
              ∷ []))
        pure fa

  -- `create_managed_disk`
  unfoldable pub create_managed_disk : String → ℕ → ℕ → Act String
  unfolding ◌>>=◌ pve_bus copy_name gib_of ssh ssh_script storage_id disk_created str
  create_managed_disk vm_ref size_bytes order =
      let slot = fstring (pve_bus "scsi" ∷ str order ∷ []) in
      let gib = gib_of size_bytes in
      if is_mock_or_dry o then pure (copy_name vm_ref order) else do
        out ←
            ssh_script o
              (fstring
                  ("qm set " ∷ vm_ref ∷ " --" ∷ slot ∷ " " ∷ storage_id o "" ∷ ":" ∷ str gib ∷ [])
                ∷ [])
              false (some 120)
        cfg ← ssh o (fstring ("qm config " ∷ vm_ref ∷ [])) false none
        disk_created vm_ref slot gib out cfg
