-- ===== src/Xcpng/Capture.antt =====
-- `capture_vm_spec` of backend/phif/connectors/xcpng/connector.py.
use pure_hypervisor_integrat.Prelude.{
  ℕ, String, Bool, true, false, ◌||◌, ◌==◌, Option, none, some, List, [], ◌∷◌, ◌++◌, lookup, maybe,
  text_or, if◌then◌else◌,
}
use pure_hypervisor_integrat.Prelude.Text.{fstring, lower, repr, includes}
use pure_hypervisor_integrat.Prelude.Cuts.{int_of, sort_by}
use pure_hypervisor_integrat.Prelude.Dict.{get_or}
use pure_hypervisor_integrat.Prelude.Json.{no_fields}
use pure_hypervisor_integrat.Migrate.Spec.{DiskSpec, NicSpec, VmSpec}
use pure_hypervisor_integrat.Array.Io.{pure, ◌>>=◌}
use pure_hypervisor_integrat.Proxmox.Session.{Outside, Act, raised, is_mock_or_dry}
use pure_hypervisor_integrat.Proxmox.Capture.{identity_of, with_boot}
use pure_hypervisor_integrat.Xcpng.Records.{Record, value_of, parse_records}
use pure_hypervisor_integrat.Xcpng.Machines.{sr_name, xe, xe_get}

-- `int(s or default)`; `none` is its ValueError
unfoldable pub int_or : String → String → Option ℕ
unfolding int_of
int_or default s = int_of (text_or (some s) default)

abbrev pub bad_number : {A : Type 0} → Act A
bad_number = raised "invalid literal for int() with base 10"

-- a VDI that there is none of
abbrev pub absent_vdi : String → Bool
absent_vdi vdi = vdi == "" || vdi == "<not in database>"

module _ (o : Outside) where
  -- one virtual block device; its VDI must be on the storage repository
  unfoldable pub pool_disk : Record → Act (List DiskSpec)
  unfolding ◌>>=◌ xe_get int_or lower
  pool_disk r =
      let vdi = value_of "vdi-uuid" r in
      if absent_vdi vdi then pure [] else do
        vol ← xe_get o "vdi" vdi "location"
        vdi_sr ← xe_get o "vdi" vdi "sr-name-label"
        if vdi_sr == sr_name o
            then maybe (int_or "0" (get_or "0" (lookup "userdevice" r))) bad_number (λ order. pure (
                record {
                  identity = identity_of vol;
                  bus = "xvd";
                  order = order;
                  boot = lower (get_or "false" (lookup "bootable" r)) == "true";
                  source_ref = value_of "uuid" r;
                }
                ∷ []))
            else raised (
                fstring (
                  "VDI "
                  ∷ vdi
                  ∷ " is on SR "
                  ∷ repr vdi_sr
                  ∷ ", not the FlashArray SR "
                  ∷ repr (sr_name o)
                  ∷ "; cannot migrate a non-FlashArray disk"
                  ∷ []))

  unfoldable pub pool_disks : List Record → Act (List DiskSpec)
  unfolding ◌>>=◌ pool_disk
  pool_disks [] = pure []
  pool_disks (r ∷ rs) =
      let rest = pool_disks rs in do one ← pool_disk r; more ← rest; pure (one ++ more)

  -- the interfaces of the records; `none` is a ValueError
  unfoldable pub pool_nics : List Record → Option (List NicSpec)
  unfolding int_or
  pool_nics [] = some []
  pool_nics (r ∷ rs) =
      let rest = pool_nics rs in
      maybe (int_or "0" (get_or "0" (lookup "device" r))) none (λ order. maybe rest none (λ nics.
        some (
          record {
            mac = value_of "MAC" r;
            source_network = value_of "network-uuid" r;
            model = "virtio";
            order = order;
          }
          ∷ nics)))

  -- the spec of the mock
  abbrev pub pool_mock_spec : String → VmSpec
  pool_mock_spec vm_ref = record {
    name = "mock-vm";
    source_ref = vm_ref;
    vcpus = 2;
    memory_bytes = 2147483648;
    firmware = "bios";
    secure_boot = false;
    disks =
        record {
          identity = identity_of "vdi-mock-0";
          bus = "xvd";
          order = 0;
          boot = true;
          source_ref = "vbd-uuid-0";
        }
        ∷ [];
    nics =
        record {
          mac = "AA:BB:CC:00:00:01";
          source_network = "net-uuid-0";
          model = "virtio";
          order = 0;
        }
        ∷ [];
    guest_os_hint = "";
    raw = no_fields;
  }

  -- the disks and the interfaces, after what the VM's own settings have told
  unfoldable pub capture_devices : String → String → ℕ → ℕ → String → Act VmSpec
  unfolding ◌>>=◌ xe pool_disks pool_nics parse_records sort_by with_boot includes
  capture_devices vm_ref name vcpus memory platform = do
    vbds ← xe o (
        fstring (
          "xe vbd-list vm-uuid=" ∷ vm_ref ∷ " type=Disk params=uuid,vdi-uuid,bootable,userdevice"
          ∷ []))
    disks ← pool_disks (parse_records vbds)
    vifs ←
        xe o
          (fstring ("xe vif-list vm-uuid=" ∷ vm_ref ∷ " params=uuid,MAC,network-uuid,device" ∷ []))
    maybe (pool_nics (parse_records vifs)) bad_number (λ nics. pure (record {
      name = text_or (some name) (fstring ("vm-" ∷ vm_ref ∷ []));
      source_ref = vm_ref;
      vcpus = vcpus;
      memory_bytes = memory;
      firmware = if includes platform "uefi" then "uefi" else "bios";
      secure_boot = includes platform "secureboot: true";
      disks = with_boot (sort_by (λ d. d.order) disks);
      nics = sort_by (λ n. n.order) nics;
      guest_os_hint = "";
      raw = no_fields;
    }))

  -- `capture_vm_spec`
  unfoldable pub capture_pool_vm : String → Act VmSpec
  unfolding ◌>>=◌ xe_get int_or capture_devices lower
  capture_pool_vm vm_ref = if is_mock_or_dry o then pure (pool_mock_spec vm_ref) else do
    name ← xe_get o "vm" vm_ref "name-label"
    cpus ← xe_get o "vm" vm_ref "VCPUs-at-startup"
    maybe (int_or "1" cpus) bad_number (λ vcpus. do
      bytes ← xe_get o "vm" vm_ref "memory-static-max"
      maybe (int_or "0" bytes) bad_number (λ memory. do
        platform ← xe_get o "vm" vm_ref "platform"
        capture_devices vm_ref name vcpus memory (lower platform)))
