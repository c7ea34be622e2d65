-- ===== src/Xcpng/Disks.antt =====
-- The disks of VMs in backend/phif/connectors/xcpng/connector.py: attaching of volumes, new ones,
-- the name of a copy's target. The loop for a free volume name runs on fuel.
use Prim.Native.Char.{code}
use pure_hypervisor_integrat.Prelude.{
  ℕ, zero, suc, max, String, Bool, false, not, ◌&&◌, ◌==◌, eqb, Option, none, some, List, [], ◌∷◌,
  maybe, length, text_or, is_empty, if◌then◌else◌,
}
use pure_hypervisor_integrat.Prelude.Text.{
  fstring, lower, repr, str, strip, drop, starts_with, includes, is_space,
}
use pure_hypervisor_integrat.Prelude.Cuts.{lines, first_chars, map_chars, trim_left}
use pure_hypervisor_integrat.Migrate.Spec.{DiskSpec}
use pure_hypervisor_integrat.Host.Multipath.{refresh_block_devices}
use pure_hypervisor_integrat.Array.Io.{pure, ◌>>=◌, ◌>>◌}
use pure_hypervisor_integrat.Proxmox.Session.{
  Outside, FlashArray, Act, ensure_volume_group, emit, raised, run, is_mock_or_dry, array_act,
  array_exists,
}
use pure_hypervisor_integrat.Proxmox.Names.{dash}
use pure_hypervisor_integrat.Proxmox.Nodes.{ClusterNode}
use pure_hypervisor_integrat.Proxmox.Machines.{Result, ok, fail}
use pure_hypervisor_integrat.Proxmox.Disks.{disk_wwids}
use pure_hypervisor_integrat.Xcpng.Pool.{list_pool_nodes}
use pure_hypervisor_integrat.Xcpng.Creation.{truth_word}
use pure_hypervisor_integrat.Xcpng.Machines.{pool_master, xe, xe_get}

-- f"{vg}/{base_name}" and, from 1 on, f"{vg}/{base_name}-{i}"
unfoldable pub pool_copy_name : String → String → ℕ → String
unfolding str
pool_copy_name vg base zero = fstring (vg ∷ "/" ∷ base ∷ [])
pool_copy_name vg base (suc i) = fstring (vg ∷ "/" ∷ base ∷ "-" ∷ str (suc i) ∷ [])

-- the first of these names, from the `i`th on, that the array does not have
unfoldable pub free_pool_copy : FlashArray → String → String → ℕ → ℕ → Act ℕ
unfolding ◌>>=◌ pool_copy_name
free_pool_copy a vg base zero i = pure i
free_pool_copy a vg base (suc fuel) i =
    let next = free_pool_copy a vg base fuel (suc i) in
    do taken ← array_exists a (pool_copy_name vg base i); if taken then next else pure i

-- `("migcopy-" + ref.replace(":", "-"))[:60]`
unfoldable pub copy_group : String → String
unfolding map_chars first_chars
copy_group ref =
    first_chars 60
      (fstring ("migcopy-" ∷ map_chars (λ c. if eqb (code c) 58 then dash else c) ref ∷ []))

-- the uuid of a line "SR uuid ...": its second word
unfoldable pub second_word : String → String
unfolding trim_left drop
second_word line = word (trim_left is_space (drop 3 line))
  where
    word : String → String
    word String.[] = ""
    word (String.◌∷◌ c s) = let rest = word s in if is_space c then "" else String.◌∷◌ c rest

-- the repository of the lines: the first that names the group, or else the first
unfoldable pub chosen_sr : String → String → List String → String
unfolding starts_with includes second_word
chosen_sr group first [] = first
chosen_sr group first (line ∷ rest) =
    let uuid = second_word line in
    let later = chosen_sr group first rest in
    let begun = chosen_sr group (if first == "" then uuid else first) rest in
    if starts_with line "SR "
    then (if not (group == "") && includes line group then uuid else begun)
    else later

-- the VDI of the last line "VDI=..."
unfoldable pub printed_vdi : String → List String → String
unfolding starts_with strip drop
printed_vdi vdi [] = vdi
printed_vdi vdi (line ∷ rest) =
    printed_vdi (if starts_with (strip line) "VDI=" then strip (drop 4 (strip line)) else vdi) rest

module _ (o : Outside) where
  -- `_ssh_script` on the pool's master, without a check
  unfoldable pub xe_script : List String → Act String
  unfolding ◌>>=◌ pool_master run
  xe_script script = pool_master o >>= λ h.
      run o (record { host = h; lines = script; check = false; timeout = some 120 })

  -- `prepare_copy_target`, with so many rounds of its loop at most
  unfoldable pub prepare_pool_copy : ℕ → String → String → Act String
  unfolding ◌>>=◌ copy_group free_pool_copy pool_copy_name
  prepare_pool_copy fuel base vm_ref =
      let vg = copy_group vm_ref in
      maybe o.array (pure (pool_copy_name vg base 0)) (λ a. do
        i ← free_pool_copy a vg base fuel 0
        array_act a (ensure_volume_group vg)
        pure (pool_copy_name vg base i))

  -- `_purefa_sr_uuid`
  unfoldable pub purefa_sr_uuid : String → Act String
  unfolding ◌>>=◌ xe chosen_sr lines
  purefa_sr_uuid group =
      xe o (
        fstring (
          "for u in $(xe sr-list type=purefa --minimal | tr ',' ' '); do "
          ∷ "dc=$(xe pbd-list sr-uuid=$u params=device-config --minimal 2>/dev/null); "
          ∷ "echo \"SR $u :: $dc\"; done" ∷ []))
      >>= λ out. pure (chosen_sr group "" (lines out))

  -- the block devices of one host are refreshed
  unfoldable pub refresh_each : String → List (String × ℕ) → Act (Unit {0})
  unfolding ◌>>=◌ run
  refresh_each host [] = pure tt
  refresh_each host ((command, limit) ∷ rest) =
      let later = refresh_each host rest in
      run o (record { host = host; lines = command ∷ []; check = false; timeout = some limit })
      >>= λ out. later

  -- those of all hosts
  unfoldable pub refresh_hosts : List String → List ClusterNode → Act (Unit {0})
  unfolding ◌>>=◌ refresh_each refresh_block_devices
  refresh_hosts wwids [] = pure tt
  refresh_hosts wwids (n ∷ nodes) =
      let rest = refresh_hosts wwids nodes in
      refresh_each n.host
        (refresh_block_devices (some (lower (text_or o.target.protocol "iscsi"))) wwids)
      >> rest

  -- one volume; `some r` if the function returns `r` there
  unfoldable pub introduce_one : String → String → DiskSpec → Act (Option Result)
  unfolding ◌>>=◌ xe_script printed_vdi lines str
  introduce_one vm_ref sr disk =
      let vol = disk.identity.fa_volume in
      do
        out ← xe_script (
            fstring (
              "VDI=$(xe vdi-introduce uuid=$(uuidgen) sr-uuid=" ∷ sr
              ∷ " type=user sharable=false read-only=false location='" ∷ vol ∷ "' name-label='"
              ∷ vol ∷ "')" ∷ [])
            ∷ fstring (
                "xe vbd-create vm-uuid="
                ∷ vm_ref
                ∷ " vdi-uuid=$VDI device="
                ∷ str disk.order
                ∷ " bootable="
                ∷ truth_word disk.boot
                ∷ " type=Disk mode=RW"
                ∷ [])
            ∷ "echo VDI=$VDI"
            ∷ [])
        if printed_vdi "" (lines out) == ""
            then pure (
                some (
                  fail (
                    fstring (
                      "failed to introduce/attach VDI for "
                      ∷ repr vol
                      ∷ ": "
                      ∷ o.quoted out
                      ∷ []))))
            else emit (
                fstring (
                  "Introduced + attached VDI for "
                  ∷ vol
                  ∷ " on VM "
                  ∷ vm_ref
                  ∷ " (device "
                  ∷ str disk.order
                  ∷ ")"
                  ∷ []))
              >> pure none

  unfoldable pub introduce_each : String → String → List DiskSpec → Act (Option Result)
  unfolding ◌>>=◌ introduce_one
  introduce_each vm_ref sr [] = pure none
  introduce_each vm_ref sr (d ∷ disks) =
      let rest = introduce_each vm_ref sr disks in
      do ended ← introduce_one vm_ref sr d; maybe ended rest (λ r. pure (some r))

  -- `attach_existing_volumes`
  unfoldable pub attach_to_pool_vm : String → List DiskSpec → Act Result
  unfolding ◌>>=◌ purefa_sr_uuid disk_wwids list_pool_nodes refresh_hosts introduce_each str
  attach_to_pool_vm vm_ref disks =
      if is_mock_or_dry o
      then pure (ok (fstring ("attached " ∷ str (length disks) ∷ " disk(s) (mock)" ∷ [])))
      else do
        sr ← purefa_sr_uuid (maybe o.target.host_group "" (λ g. g))
        if sr == "" then pure (fail "purefa SR (type=purefa) not found on the pool") else (do
          wwids ← disk_wwids o disks
          if is_empty wwids
              then pure tt
              else (list_pool_nodes o >>= λ nodes. refresh_hosts wwids nodes)
          ended ← introduce_each vm_ref sr disks
          maybe ended
              (pure
                (ok (fstring ("Attached " ∷ str (length disks) ∷ " disk(s) to VM " ∷ vm_ref ∷ []))))
              pure)

  -- what `create_managed_disk` does with the output of its script
  unfoldable pub vdi_created : String → ℕ → String → Act String
  unfolding ◌>>=◌ printed_vdi lines xe_get str
  vdi_created vm_ref order out =
      let vdi = printed_vdi "" (lines out) in
      if vdi == ""
      then raised (fstring ("failed to create managed VDI: " ∷ o.quoted out ∷ []))
      else do
        location ← xe_get o "vdi" vdi "location"
        emit (
            fstring (
              "Created managed VDI "
              ∷ vdi
              ∷ " (FA "
              ∷ location
              ∷ ") on VM "
              ∷ vm_ref
              ∷ " (device "
              ∷ str order
              ∷ ")"
              ∷ []))
        pure location

  -- `create_managed_disk`
  unfoldable pub create_pool_disk : String → ℕ → ℕ → Bool → Act String
  unfolding ◌>>=◌ purefa_sr_uuid xe_script vdi_created str
  create_pool_disk vm_ref size_bytes order boot =
      if is_mock_or_dry o
      then pure (fstring ("phif-mock/phif-mock-" ∷ vm_ref ∷ "-" ∷ str order ∷ []))
      else do
        sr ← purefa_sr_uuid (maybe o.target.host_group "" (λ g. g))
        if sr == "" then raised "purefa SR not found on the pool" else (do
          out ← xe_script (
              fstring (
                "VDI=$(xe vdi-create sr-uuid="
                ∷ sr
                ∷ " type=user name-label='migrated-"
                ∷ vm_ref
                ∷ "-"
                ∷ str order
                ∷ "' virtual-size="
                ∷ str (max 1073741824 size_bytes)
                ∷ ")"
                ∷ [])
              ∷ fstring (
                  "xe vbd-create vm-uuid="
                  ∷ vm_ref
                  ∷ " vdi-uuid=$VDI device="
                  ∷ str order
                  ∷ " bootable="
                  ∷ truth_word boot
                  ∷ " type=Disk mode=RW"
                  ∷ [])
              ∷ "echo VDI=$VDI"
              ∷ [])
          vdi_created vm_ref order out)
