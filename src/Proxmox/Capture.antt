-- ===== src/Proxmox/Capture.antt =====
-- `capture_vm_spec` of backend/phif/connectors/proxmox/connector.py: the hardware of a VM, read from the
-- lines of `qm config`.
use pure_hypervisor_integrat.Prelude.{
  ℕ, ◌*◌, String, true, false, ◌||◌, ◌&&◌, ◌==◌, Option, none, some, List, [], ◌∷◌, ◌++◌, any,
  contains, lookup, maybe, text_or, given, is_empty, if◌then◌else◌,
}
use pure_hypervisor_integrat.Prelude.Text.{fstring, lower, strip, drop, starts_with, includes}
use pure_hypervisor_integrat.Prelude.Dict.{assign, get_or}
use pure_hypervisor_integrat.Prelude.Json.{json_text, no_fields, more_fields}
use pure_hypervisor_integrat.Prelude.Cuts.{
  cut, before, after_text, split, lines, digits_only, digits_number, int_of, sort_by,
}
use pure_hypervisor_integrat.Migrate.Spec.{DiskIdentity, DiskSpec, NicSpec, VmSpec}
use pure_hypervisor_integrat.Array.Io.{pure, ◌>>=◌, ◌>>◌}
use pure_hypervisor_integrat.Proxmox.Session.{
  Outside, Act, modify, raised, rescue, is_mock_or_dry, storage_id, ssh, array_volume,
}

-- `cfg`
abbrev pub QmConfig : Type 0
QmConfig = List (String × String)

-- the settings of the lines, put after those that have been read
unfoldable pub config_onto : QmConfig → List String → QmConfig
unfolding cut assign strip
config_onto cfg [] = cfg
config_onto cfg (line ∷ rest) =
    config_onto (maybe (cut 58 line) cfg (λ (k, v). assign (strip k) (strip v) cfg)) rest

-- the settings of an output
unfoldable pub config_of : String → QmConfig
unfolding config_onto lines
config_of raw = config_onto [] (lines raw)

-- the slot's number, if the key is the prefix and digits
unfoldable pub slot_number : ℕ → String → String → Option ℕ
unfolding starts_with drop digits_only digits_number
slot_number n prefix key =
    if starts_with key prefix && digits_only (drop n key)
    then some (digits_number 0 (drop n key))
    else none

-- the bus of a disk's key, and the number of its slot
unfoldable pub disk_slot : String → Option (String × ℕ)
unfolding slot_number
disk_slot key =
    maybe (slot_number 4 "scsi" key)
      (maybe (slot_number 6 "virtio" key)
        (maybe (slot_number 4 "sata" key)
          (maybe (slot_number 3 "ide" key) none (λ n. some ("ide", n))) (λ n. some ("sata", n)))
        (λ n. some ("virtio", n)))
      (λ n. some ("scsi", n))

-- `boot_slots`
unfoldable pub boot_slots : QmConfig → List String
unfolding after_text before split
boot_slots cfg =
    maybe (after_text 6 "order=" (get_or "" (lookup "boot" cfg)))
      (if given (lookup "bootdisk" cfg) then get_or "" (lookup "bootdisk" cfg) ∷ [] else [])
      (λ rest. split 59 (before 44 rest))

-- an interface's model, its mac and its bridge, after what its earlier parts have told
unfoldable pub net_parts : String × String × String → List String → String × String × String
unfolding cut
net_parts seen [] = seen
net_parts (model, mac, bridge) (part ∷ rest) =
    net_parts
      (maybe (cut 61 part) (model, mac, bridge)
        (λ (pk, pv).
          if contains pk ("virtio" ∷ "e1000" ∷ "vmxnet3" ∷ "rtl8139" ∷ [])
          then (pk, pv, bridge)
          else if pk == "bridge"
          then (model, mac, pv)
          else (model, mac, bridge)))
      rest

-- the interface that a setting describes
unfoldable pub read_net : ℕ → String → NicSpec
unfolding net_parts split
read_net order val =
    let (model, mac, bridge) = net_parts ("virtio", "", "") (split 44 val) in
    record { mac = mac; source_network = bridge; model = model; order = order }

-- the disks with the first of them marked for boot, if none is marked
unfoldable pub with_boot : List DiskSpec → List DiskSpec
with_boot [] = []
with_boot (d ∷ disks) =
    if any (λ e. e.boot) (d ∷ disks) then d ∷ disks else record d { boot = true } ∷ disks

-- `int(cfg.get(key, default) or 1)`
unfoldable pub setting : String → String → QmConfig → Option ℕ
unfolding int_of
setting key default cfg = int_of (text_or (some (get_or default (lookup key cfg))) "1")

-- what `sockets`, `cores` and `memory` say: the CPUs and the bytes; `none` is a ValueError
unfoldable pub sizes_of : QmConfig → Option (ℕ × ℕ)
unfolding setting
sizes_of cfg = maybe (setting "cores" "1" cfg) none (λ cores.
    maybe (setting "sockets" "1" cfg) none (λ sockets.
      maybe (setting "memory" "512" cfg) none (λ memory. some (cores * sockets, memory * 1048576))))

abbrev pub identity_of : String → DiskIdentity
identity_of fa_volume = record {
  fa_volume = fa_volume;
  serial = none;
  wwid = none;
  size_bytes = none;
}

-- the PVE name of a volume in a setting of a disk
unfoldable pub volume_part : String → String
unfolding before cut
volume_part val = let volref = before 44 val in maybe (cut 58 volref) volref (λ p. p.1)

-- the spec of the mock
abbrev pub mock_spec : String → VmSpec
mock_spec vm_ref = record {
  name = "mock-vm";
  source_ref = vm_ref;
  vcpus = 2;
  memory_bytes = 2147483648;
  firmware = "bios";
  secure_boot = false;
  disks =
      record {
        identity = identity_of (fstring ("vm-" ∷ vm_ref ∷ "-disk-0" ∷ []));
        bus = "scsi";
        order = 0;
        boot = true;
        source_ref = "scsi0";
      }
      ∷ [];
  nics =
      record { mac = "AA:BB:CC:00:00:01"; source_network = "vmbr0"; model = "virtio"; order = 0 }
      ∷ [];
  guest_os_hint = "";
  raw = no_fields;
}

-- the spec of what has been read
unfoldable pub spec_of : String → QmConfig → ℕ → ℕ → List DiskSpec → List NicSpec → VmSpec
unfolding lower sort_by with_boot
spec_of vm_ref cfg vcpus memory disks nics = record {
  name = get_or (fstring ("vm-" ∷ vm_ref ∷ [])) (lookup "name" cfg);
  source_ref = vm_ref;
  vcpus = vcpus;
  memory_bytes = memory;
  firmware = if lower (get_or "seabios" (lookup "bios" cfg)) == "ovmf" then "uefi" else "bios";
  secure_boot = false;
  disks = with_boot (sort_by (λ d. d.order) disks);
  nics = sort_by (λ n. n.order) nics;
  guest_os_hint = "";
  raw =
      more_fields "scsihw" (json_text (get_or "virtio-scsi-single" (lookup "scsihw" cfg)))
        no_fields;
}

module _ (o : Outside) where
  -- `_resolve_fa_volume`
  unfoldable pub resolve_fa_volume : String → String → Act String
  resolve_fa_volume vmid volname =
      let grouped = fstring ("vm-" ∷ vmid ∷ "/" ∷ volname ∷ []) in
      maybe o.array (pure volname) (λ a.
        rescue (array_volume a grouped) (λ v. pure (maybe v volname (λ serial. grouped)))
          (λ exc. pure volname))

  abbrev pub found_disk : List String → List DiskSpec → String → String × ℕ → String → DiskSpec
  found_disk slots disks key (bus, order) fa = record {
    identity = identity_of fa;
    bus = bus;
    order = order;
    boot = contains key slots || (is_empty slots && is_empty disks);
    source_ref = key;
  }

  -- one setting, after the disks and the interfaces that have been found
  unfoldable pub setting_read :
      String
      → List String
      → String
      → String
      → List DiskSpec
      → List NicSpec
      → Act (List DiskSpec × List NicSpec)
  unfolding ◌>>=◌ resolve_fa_volume disk_slot slot_number read_net volume_part includes storage_id
  setting_read vm_ref slots key val disks nics =
      let net =
        maybe (slot_number 3 "net" key) (disks, nics)
          (λ n. (disks, nics ++ (read_net n val ∷ []))) in
      maybe (disk_slot key) (pure net) (λ slot.
        if includes val (fstring (storage_id o "" ∷ ":" ∷ []))
        then (do
          fa ← resolve_fa_volume vm_ref (volume_part val)
          pure (disks ++ (found_disk slots disks key slot fa ∷ []), nics))
        else pure net)

  -- the loop over the settings
  unfoldable pub scan :
      String
      → List String
      → QmConfig
      → List DiskSpec
      → List NicSpec
      → Act (List DiskSpec × List NicSpec)
  unfolding ◌>>=◌ setting_read
  scan vm_ref slots [] disks nics = pure (disks, nics)
  scan vm_ref slots ((key, val) ∷ rest) disks nics = do
    (disks', nics') ← setting_read vm_ref slots key val disks nics
    scan vm_ref slots rest disks' nics'

  -- what the settings are made into
  unfoldable pub spec_from : String → QmConfig → Act VmSpec
  unfolding ◌>>=◌ sizes_of boot_slots scan spec_of
  spec_from vm_ref cfg =
      maybe (sizes_of cfg) (raised "invalid literal for int() with base 10") (λ (vcpus, memory). do
        modify (λ s. record s { boot_order = get_or "" (lookup "boot" cfg) })
        (disks, nics) ← scan vm_ref (boot_slots cfg) cfg [] []
        pure (spec_of vm_ref cfg vcpus memory disks nics))

  -- `capture_vm_spec`
  unfoldable pub capture_vm_spec : String → Act VmSpec
  unfolding ◌>>=◌ ssh config_of spec_from
  capture_vm_spec vm_ref =
      if is_mock_or_dry o
      then pure (mock_spec vm_ref)
      else ssh o (fstring ("qm config " ∷ vm_ref ∷ [])) false none >>= λ raw.
          spec_from vm_ref (config_of raw)
