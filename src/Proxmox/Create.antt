-- ===== src/Proxmox/Create.antt =====
-- `create_vm` of backend/phif/connectors/proxmox/connector.py.
use pure_hypervisor_integrat.Prelude.{
  ℕ, zero, suc, ◌+◌, ◌/◌, max, String, true, false, ◌||◌, ◌==◌, Option, none, some, List, [], ◌∷◌,
  ◌++◌, ◌⊎◌, inl, inr, contains, lookup, maybe, length, given, text_or, if◌then◌else◌,
}
use pure_hypervisor_integrat.Prelude.Text.{fstring, join, lower, repr, str, strip, includes}
use pure_hypervisor_integrat.Prelude.Cuts.{first_chars}
use pure_hypervisor_integrat.Prelude.Search.{first_free}
use pure_hypervisor_integrat.Prelude.Json.{json_text, get}
use pure_hypervisor_integrat.Migrate.Spec.{NicSpec, VmSpec}
use pure_hypervisor_integrat.Array.Io.{Fault, pure, ◌>>=◌, ◌>>◌}
use pure_hypervisor_integrat.Proxmox.Names.{pve_vm_name, lock_timeout}
use pure_hypervisor_integrat.Proxmox.Session.{
  Outside, Act, emit, sleep, modify, rescue, fault_text, is_mock_or_dry, storage_id, ssh,
  ssh_script,
}
use pure_hypervisor_integrat.Proxmox.Nodes.{str_value, pick_rr_node}
use pure_hypervisor_integrat.Proxmox.Machines.{Result, fail, Vm, get_default, list_vms}

-- f"{base_name}-{i}"
unfoldable pub counted : String → ℕ → String
unfolding str
counted base i = fstring (base ∷ "-" ∷ str i ∷ [])

-- `existing_names`; a name that is no text equals none
unfoldable pub names_of : List Vm → List String
names_of [] = []
names_of (vm ∷ vms) = elim (vm.name) [ json_text s ↦ s ∷ names_of vms | _ ↦ names_of vms ]

-- the name of the new VM. As many rounds of the loop as there are names are enough.
unfoldable pub vm_name : List String → String → String
unfolding counted first_free pve_vm_name
vm_name existing name =
    let base = pve_vm_name name in
    if contains base existing
    then counted base (first_free (counted base) (length existing) existing 2)
    else base

abbrev pub pve_models : List String
pve_models = "virtio" ∷ "e1000" ∷ "e1000e" ∷ "vmxnet3" ∷ "rtl8139" ∷ []

-- the model that Proxmox gets for the source's
unfoldable pub pve_model : String → String
unfolding lower
pve_model model = if contains (lower model) pve_models then lower model else "virtio"

-- what `--netN` gets for an interface on the bridge
unfoldable pub net_value : NicSpec → String → String
unfolding pve_model
net_value nic bridge = fstring (pve_model nic.model ∷ "=" ∷ nic.mac ∷ ",bridge=" ∷ bridge ∷ [])

-- the arguments of the interfaces, or the first network that is not mapped
unfoldable pub net_args : List (String × String) → List NicSpec → String ⊎ List String
unfolding net_value str
net_args network_map [] = inr []
net_args network_map (nic ∷ nics) =
    let rest = net_args network_map nics in
    let bridge = lookup nic.source_network network_map in
    let arg = fstring ("--net" ∷ str nic.order ∷ " " ∷ net_value nic (text_or bridge "") ∷ []) in
    if given bridge
    then elim rest [ inl network ↦ inl network | inr args ↦ inr (arg ∷ args) ]
    else inl nic.source_network

module _ (o : Outside) where
  -- the arguments of the machine itself
  unfoldable pub machine_args : VmSpec → String → List String
  unfolding str storage_id get
  machine_args spec name =
      fstring ("--name " ∷ name ∷ [])
      ∷ fstring ("--cores " ∷ str (max 1 spec.vcpus) ∷ [])
      ∷ "--sockets 1"
      ∷ fstring ("--memory " ∷ str (max 16 (spec.memory_bytes / 1048576)) ∷ [])
      ∷ fstring (
          "--scsihw "
          ∷ str_value o (get_default "scsihw" (json_text "virtio-scsi-single") spec.raw)
          ∷ [])
      ∷ (if spec.firmware == "uefi"
          then "--bios ovmf" ∷ fstring ("--efidisk0 " ∷ storage_id o "" ∷ ":1,efitype=4m" ∷ []) ∷ []
          else [])

  -- the node for the new VM
  unfoldable pub place : Act (Unit {0})
  unfolding ◌>>=◌ pick_rr_node
  place = do
    rr_host ← pick_rr_node o
    if given rr_host
        then modify (λ s. record s { host_override = rr_host })
          >> emit (
              fstring
                ("Placing VM on cluster node " ∷ text_or rr_host "" ∷ " (round-robin spread)" ∷ []))
        else pure tt

  -- the tries of `qm create`, of which so many follow the one that is numbered `attempt`: the last error
  unfoldable pub create_tries : String → String → ℕ → ℕ → Act (Option Fault)
  unfolding ◌>>=◌ ssh ssh_script str
  create_tries vmid command zero attempt =
      rescue (ssh_script o (command ∷ []) true (some 180)) (λ out. pure none)
        (λ exc. pure (some exc))
  create_tries vmid command (suc left) attempt =
      let again = create_tries vmid command left (suc attempt) in
      rescue (ssh_script o (command ∷ []) true (some 180)) (λ out. pure none)
        (λ exc. do
          emit (
              fstring (
                "qm create "
                ∷ vmid
                ∷ " attempt "
                ∷ str (attempt + 1)
                ∷ " failed ("
                ∷ fault_text exc
                ∷ "); retrying"
                ∷ []))
          out ←
              ssh o (fstring ("qm destroy " ∷ vmid ∷ " --purge 1 >/dev/null 2>&1 || true" ∷ []))
                false (some 60)
          sleep 3
          again)

  -- the id of the new VM
  unfoldable pub next_id : Act String
  unfolding ◌>>=◌ ssh strip
  next_id =
      if is_mock_or_dry o
      then pure "900"
      else ssh o "pvesh get /cluster/nextid" false none >>= λ out.
          pure (text_or (some (strip out)) "900")

  -- the configuration is looked at once more
  unfoldable pub confirmed : String → String → Act Result
  unfolding ◌>>=◌ ssh includes lock_timeout strip first_chars
  confirmed vmid name = do
    cfg ←
        if is_mock_or_dry o then pure "" else ssh o (fstring ("qm config " ∷ vmid ∷ [])) false none
    if includes cfg "does not exist" || lock_timeout cfg
        then pure (
            fail (
              fstring
                ("VM " ∷ vmid ∷ " not present after create: " ∷ first_chars 200 (strip cfg) ∷ [])))
        else emit (fstring ("Created VM " ∷ vmid ∷ " (" ∷ name ∷ ")" ∷ []))
          >> pure (record {
            success = true;
            message = fstring ("Created VM " ∷ vmid ∷ []);
            vm_ref = some vmid;
          })

  -- the VM is made from its arguments
  unfoldable pub made : List String → String → Act Result
  unfolding ◌>>=◌ next_id create_tries confirmed
  made args name = do
    vmid ← next_id
    last_exc ← create_tries vmid (join " " (fstring ("qm create " ∷ vmid ∷ []) ∷ args)) 2 0
    maybe last_exc (confirmed vmid name) (λ exc.
        pure
          (fail (fstring ("qm create " ∷ vmid ∷ " failed after retries: " ∷ fault_text exc ∷ []))))

  -- the VM is made, unless a network is not mapped
  unfoldable pub by_nets : VmSpec → String → String ⊎ List String → Act Result
  unfolding made machine_args
  by_nets spec name (inl network) =
      pure (fail (fstring ("no destination network mapped for source NIC " ∷ repr network ∷ [])))
  by_nets spec name (inr nets) = made (machine_args spec name ++ nets) name

  -- `create_vm`
  unfoldable pub create_vm : VmSpec → List (String × String) → Act Result
  unfolding ◌>>=◌ place list_vms names_of vm_name net_args by_nets pve_vm_name
  create_vm spec network_map = do
    place
    vms ← list_vms o
    let existing = names_of vms
    let base = pve_vm_name spec.name
    let name = vm_name existing spec.name
    if contains base existing
        then emit (
            fstring ("Name " ∷ repr base ∷ " already exists; using " ∷ repr name ∷ " instead" ∷ []))
        else pure tt
    by_nets spec name (net_args network_map spec.nics)
