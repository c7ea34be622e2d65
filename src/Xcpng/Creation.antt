-- ===== src/Xcpng/Creation.antt =====
-- `create_vm` of backend/phif/connectors/xcpng/connector.py.
use pure_hypervisor_integrat.Prelude.{
  max, String, Bool, true, ◌==◌, Option, none, some, List, [], ◌∷◌, map, contains, lookup, maybe,
  length, given, text_or, if◌then◌else◌,
}
use pure_hypervisor_integrat.Prelude.Text.{fstring, repr, str, strip}
use pure_hypervisor_integrat.Prelude.Search.{first_free}
use pure_hypervisor_integrat.Migrate.Spec.{NicSpec, VmSpec}
use pure_hypervisor_integrat.Array.Io.{pure, ◌>>=◌, ◌>>◌}
use pure_hypervisor_integrat.Proxmox.Session.{Outside, Act, emit, is_mock_or_dry}
use pure_hypervisor_integrat.Proxmox.Machines.{Result, fail}
use pure_hypervisor_integrat.Proxmox.Create.{counted}
use pure_hypervisor_integrat.Xcpng.Machines.{xe, pool_vms}

abbrev pub truth_word : Bool → String
truth_word b = if b then "true" else "false"

-- a command that sets some of the VM's parameters
abbrev set_command : String → List String → String
set_command uuid rest = fstring ("xe vm-param-set uuid=" ∷ uuid ∷ " " ∷ rest)

-- the commands that give a new VM its CPUs, its memory and its firmware
unfoldable pub machine_commands : String → VmSpec → List String
unfolding str
machine_commands uuid spec =
    let cpus = str (max 1 spec.vcpus) in
    let mem = str (max 16777216 spec.memory_bytes) in
    set_command uuid ("VCPUs-max=" ∷ cpus ∷ [])
    ∷ set_command uuid ("VCPUs-at-startup=" ∷ cpus ∷ [])
    ∷ fstring (
        "xe vm-memory-limits-set uuid=" ∷ uuid ∷ " static-min=" ∷ mem ∷ " dynamic-min=" ∷ mem
        ∷ " dynamic-max=" ∷ mem ∷ " static-max=" ∷ mem ∷ [])
    ∷ set_command uuid ("domain-type=hvm" ∷ [])
    ∷ set_command uuid ("HVM-boot-policy='BIOS order'" ∷ [])
    ∷ set_command uuid ("HVM-boot-params:order=cdn" ∷ [])
    ∷ set_command uuid (
        "platform:pae=true platform:nx=true "
        ∷ "platform:acpi=1 platform:apic=true platform:hpet=true platform:viridian=true" ∷ [])
    ∷ (if spec.firmware == "uefi"
        then set_command uuid (
            "platform:device-model=qemu-upstream-uefi platform:firmware=uefi platform:secureboot="
            ∷ truth_word spec.secure_boot
            ∷ [])
          ∷ set_command uuid ("HVM-boot-params:firmware=uefi" ∷ [])
          ∷ []
        else set_command uuid ("platform:device-model=qemu-upstream-compat" ∷ []) ∷ [])

module _ (o : Outside) where
  -- commands, one after the other
  unfoldable pub xe_each : List String → Act (Unit {0})
  unfolding ◌>>=◌ xe
  xe_each [] = pure tt
  xe_each (command ∷ rest) = let later = xe_each rest in xe o command >>= λ out. later

  -- the interfaces of a new VM; `some r` if the function returns `r` there
  unfoldable pub vifs_each : String → List (String × String) → List NicSpec → Act (Option Result)
  unfolding ◌>>=◌ xe str
  vifs_each uuid network_map [] = pure none
  vifs_each uuid network_map (nic ∷ nics) =
      let rest = vifs_each uuid network_map nics in
      let dest_net = lookup nic.source_network network_map in
      if given dest_net
      then (xe o (
            fstring (
              "xe vif-create vm-uuid="
              ∷ uuid
              ∷ " network-uuid="
              ∷ text_or dest_net ""
              ∷ " mac="
              ∷ nic.mac
              ∷ " device="
              ∷ str nic.order
              ∷ []))
          >>= λ out. rest)
      else pure (
          some (
            fail (
              fstring
                ("no destination network mapped for source NIC " ∷ repr nic.source_network ∷ []))))

  -- the VM of the name is made
  unfoldable pub made_on_pool : VmSpec → List (String × String) → String → Act Result
  unfolding ◌>>=◌ xe strip xe_each machine_commands vifs_each
  made_on_pool spec network_map name = do
    created ← xe o (fstring ("xe vm-create name-label='" ∷ name ∷ "'" ∷ []))
    let uuid = strip created
    if uuid == "" then pure (fail "xe vm-create returned no VM uuid") else (do
      xe_each (machine_commands uuid spec)
      ended ← vifs_each uuid network_map spec.nics
      maybe ended
          (emit (fstring ("Created VM " ∷ uuid ∷ " (" ∷ spec.name ∷ ")" ∷ []))
            >> pure (record {
              success = true;
              message = fstring ("Created VM " ∷ uuid ∷ []);
              vm_ref = some uuid;
            }))
          pure)

  -- `create_vm`
  unfoldable pub create_pool_vm : VmSpec → List (String × String) → Act Result
  unfolding ◌>>=◌ pool_vms counted first_free made_on_pool
  create_pool_vm spec network_map = do
    vms ← pool_vms o
    let existing = map (λ vm. vm.name) vms
    let taken = contains spec.name existing
    let name =
        if taken
        then counted spec.name (first_free (counted spec.name) (length existing) existing 2)
        else spec.name
    if taken
        then emit (
            fstring
              ("Name " ∷ repr spec.name ∷ " already exists; using " ∷ repr name ∷ " instead" ∷ []))
        else pure tt
    if is_mock_or_dry o
        then pure
            (record { success = true; message = "created (mock)"; vm_ref = some "vm-uuid-new" })
        else made_on_pool spec network_map name
