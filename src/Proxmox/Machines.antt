-- ===== src/Proxmox/Machines.antt =====
-- The VMs of a cluster in backend/phif/connectors/proxmox/connector.py: their list and the networks', the
-- power state, stop and start, detaching of disks, the boot order, deletion.
use pure_hypervisor_integrat.Prelude.{
  String, Bool, true, false, ◌||◌, ◌==◌, Option, none, some, List, [], ◌∷◌, map, maybe, length,
  is_empty, text_or, if◌then◌else◌,
}
use pure_hypervisor_integrat.Prelude.Text.{fstring, join, lower, str, strip, includes}
use pure_hypervisor_integrat.Prelude.Json.{
  Value, json_null, json_number, json_text, json_dict, json_list, Values, no_values, more_values,
  Fields, no_fields, more_fields, get, truth,
}
use pure_hypervisor_integrat.Prelude.Cuts.{after_last, first_chars, sort_by}
use pure_hypervisor_integrat.Migrate.Spec.{DiskSpec}
use pure_hypervisor_integrat.Array.Io.{pure, ◌>>=◌, ◌>>◌}
use pure_hypervisor_integrat.Proxmox.Names.{pve_slot}
use pure_hypervisor_integrat.Proxmox.Session.{
  Outside, Act, emit, raised, Parsed, parsed, refused, is_mock_or_dry, storage_id, ssh, ssh_script,
}
use pure_hypervisor_integrat.Proxmox.Nodes.{str_value, node_name}

-- an `OpResult`: whether it is one of success, its message, and the `vm_ref` of its artifacts
pub record Result : Type 0 where
  pub success : Bool
  pub message : String
  pub vm_ref : Option String

abbrev pub ok : String → Result
ok message = record { success = true; message = message; vm_ref = none }

abbrev pub fail : String → Result
fail message = record { success = false; message = message; vm_ref = none }

-- an entry of `list_vms`
pub record Vm : Type 0 where
  pub id : String
  pub name : Value
  pub power_state : String
  pub vcpus : Value
  pub memory_bytes : Value

-- an entry of `list_networks`
pub record Network : Type 0 where
  pub id : Value
  pub kind : Value

-- what a loop over a value meets: its elements, a TypeError, or first an element that has no `get`
pub data Loop : Type 0 where
  elements : Values → Loop
  no_loop : Loop
  no_get : Loop

unfoldable pub loop_over : Value → Loop
loop_over (json_list vs) = elements vs
loop_over (json_dict no_fields) = elements no_values
loop_over (json_dict (more_fields k v d)) = no_get
loop_over (json_text s) = if s == "" then elements no_values else no_get
loop_over v = no_loop

-- `d.get(key, default)`
abbrev pub get_default : String → Value → Fields → Value
get_default key v d = maybe (get key d) v (λ w. w)

abbrev pub is_text : String → Option Value → Bool
is_text t (some (json_text s)) = s == t
is_text t o = false

abbrev pub absent : Option Value → Bool
absent none = true
absent (some json_null) = true
absent (some v) = false

-- `(v or "").lower()`; `none` is the AttributeError of a value that is no text
abbrev pub lower_or_empty : Option Value → Option String
lower_or_empty none = some ""
lower_or_empty (some (json_text s)) = some (lower s)
lower_or_empty (some v) = if truth v then none else some ""

-- `sorted(disks, key=lambda d: (not d.boot, d.order))`: the boot disks, then the others
unfoldable pub boot_first : List DiskSpec → List DiskSpec
unfolding sort_by
boot_first disks = sort_by (λ d. if d.boot then 0 else 1) (sort_by (λ d. d.order) disks)

module _ (o : Outside) where
  -- one resource; `some none` if it is skipped, `none` is an AttributeError
  unfoldable pub vm_of : Value → Option (Option Vm)
  unfolding get lower
  vm_of (json_dict r) =
      if not_vm
      then some none
      else maybe (lower_or_empty (get "status" r)) none (λ status. some (
          some (record {
            id = str_value o (get_default "vmid" json_null r);
            name = get_default "name" (json_text "") r;
            power_state = if status == "running" then "running" else "stopped";
            vcpus = get_default "maxcpu" json_null r;
            memory_bytes = get_default "maxmem" json_null r;
          })))
    where
      not_vm : Bool
      not_vm = if is_text "qemu" (get "type" r) then absent (get "vmid" r) else true
  vm_of v = none

  unfoldable pub vms_of : Values → Option (List Vm)
  unfolding vm_of
  vms_of no_values = some []
  vms_of (more_values v vs) =
      let rest = vms_of vs in
      maybe (vm_of v) none (λ one. maybe rest none (λ vms. some (maybe one vms (λ vm. vm ∷ vms))))

  abbrev attribute_error : {A : Type 0} → Act A
  attribute_error = raised "object has no attribute 'get'"

  -- the VMs that the answer of the cluster names
  unfoldable pub vms_read : Parsed → Act (List Vm)
  unfolding loop_over vms_of
  vms_read (refused exc) = pure []
  vms_read (parsed v) = elim (loop_over v) [
    | elements vs ↦ maybe (vms_of vs) attribute_error pure
    | no_loop ↦ pure []
    | no_get ↦ attribute_error
  ]

  -- `list_vms`
  unfoldable pub list_vms : Act (List Vm)
  unfolding ◌>>=◌ ssh vms_read
  list_vms =
      if is_mock_or_dry o
      then pure (
          record {
            id = "100";
            name = json_text "mock-vm";
            power_state = "running";
            vcpus = json_number 2;
            memory_bytes = json_number 2147483648;
          }
          ∷ [])
      else ssh o "pvesh get /cluster/resources --type vm --output-format json" false none >>= λ raw.
          vms_read (o.loads (text_or (some raw) "[]"))

  -- the networks among the elements; `none` is an AttributeError
  unfoldable pub networks_of : Values → Option (List Network)
  unfolding get
  networks_of no_values = some []
  networks_of (more_values (json_dict entry) vs) =
      let rest = networks_of vs in
      let iface = get_default "iface" json_null entry in
      maybe rest none (λ nets. some (
        if truth iface
        then record { id = iface; kind = get_default "type" (json_text "bridge") entry } ∷ nets
        else nets))
  networks_of (more_values v vs) = none

  -- the networks that the answer of the node names
  unfoldable pub networks_read : Parsed → Act (List Network)
  unfolding loop_over networks_of
  networks_read (refused exc) = pure []
  networks_read (parsed v) = elim (loop_over v) [
    | elements vs ↦ maybe (networks_of vs) attribute_error pure
    | no_loop ↦ pure []
    | no_get ↦ attribute_error
  ]

  -- `list_networks`
  unfoldable pub list_networks : Act (List Network)
  unfolding ◌>>=◌ ssh node_name networks_read
  list_networks =
      if is_mock_or_dry o
      then pure (record { id = json_text "vmbr0"; kind = json_text "bridge" } ∷ [])
      else do
        node ← node_name o
        raw ←
            ssh o
              (fstring (
                "pvesh get /nodes/" ∷ node ∷ "/network --type any_bridge --output-format json"
                ∷ []))
              false none
        networks_read (o.loads (text_or (some raw) "[]"))

  -- the state that the answer of `qm status` names
  unfoldable pub state_word : String → String
  unfolding strip lower after_last
  state_word out =
      let token = lower (strip (after_last 58 (strip out))) in
      if token == "running" || token == "stopped" then token else "unknown"

  -- `power_state`
  unfoldable pub power_state : String → Act String
  unfolding ◌>>=◌ ssh state_word
  power_state vm_ref =
      if is_mock_or_dry o
      then pure "running"
      else ssh o (fstring ("qm status " ∷ vm_ref ∷ [])) false none >>= λ out. pure (state_word out)

  -- `stop_vm`
  unfoldable pub stop_vm : String → Bool → Act Result
  unfolding ◌>>=◌ ssh power_state
  stop_vm vm_ref force = do
    state ← power_state vm_ref
    if state == "stopped"
        then pure (ok (fstring ("VM " ∷ vm_ref ∷ " already stopped" ∷ [])))
        else ssh o (fstring ((if force then "qm stop " else "qm shutdown ") ∷ vm_ref ∷ [])) false
            none
          >>= λ out. pure (ok (fstring ("Stopped VM " ∷ vm_ref ∷ [])))

  -- `start_vm`
  unfoldable pub start_vm : String → Act Result
  unfolding ◌>>=◌ ssh power_state
  start_vm vm_ref = do
    state ← power_state vm_ref
    if state == "running"
        then pure (ok (fstring ("VM " ∷ vm_ref ∷ " already running" ∷ [])))
        else ssh o (fstring ("qm start " ∷ vm_ref ∷ [])) false none >>= λ out.
            pure (ok (fstring ("Started VM " ∷ vm_ref ∷ [])))

  -- the loop of `detach_volumes`
  unfoldable pub detach_each : String → List DiskSpec → Act (Unit {0})
  unfolding ◌>>=◌ ssh pve_slot
  detach_each vm_ref [] = pure tt
  detach_each vm_ref (disk ∷ disks) =
      let rest = detach_each vm_ref disks in
      let slot = text_or (some disk.source_ref) (pve_slot disk) in
      do
        out ← ssh o (fstring ("qm set " ∷ vm_ref ∷ " --delete " ∷ slot ∷ [])) false none
        emit (fstring ("Detached " ∷ slot ∷ " from VM " ∷ vm_ref ∷ []))
        rest

  -- `detach_volumes`
  unfoldable pub detach_volumes : String → List DiskSpec → Act Result
  unfolding ◌>>=◌ detach_each
  detach_volumes vm_ref disks = do
    detach_each vm_ref disks
    pure (ok (fstring ("Detached " ∷ str (length disks) ∷ " disk(s) from VM " ∷ vm_ref ∷ [])))

  -- `set_boot_order`
  unfoldable pub set_boot_order : String → List DiskSpec → Act Result
  unfolding ◌>>=◌ ssh boot_first pve_slot includes
  set_boot_order vm_ref disks =
      let slots = join ";" (map pve_slot (boot_first disks)) in
      if is_empty disks then pure (ok "no disks; boot order unchanged") else do
        out ← ssh o (fstring ("qm set " ∷ vm_ref ∷ " --boot 'order=" ∷ slots ∷ "'" ∷ [])) false none
        pure (
            if includes out "does not exist"
            then fail (
                fstring (
                  "VM "
                  ∷ vm_ref
                  ∷ " config missing when setting boot order: "
                  ∷ first_chars 200 (strip out)
                  ∷ []))
            else ok (fstring ("Set boot order: " ∷ slots ∷ [])))

  -- `delete_vm`
  unfoldable pub delete_vm : String → Bool → Act Result
  unfolding ◌>>=◌ ssh ssh_script storage_id
  delete_vm vm_ref keep_disks =
      (if keep_disks
        then (do
          edited ←
              ssh_script o
                (fstring ("CONF=/etc/pve/qemu-server/" ∷ vm_ref ∷ ".conf" ∷ [])
                  ∷ fstring (
                      "if [ -f \"$CONF\" ]; then sed -i -E '/^unused[0-9]+: *"
                      ∷ storage_id o ""
                      ∷ ":/d' \"$CONF\"; fi"
                      ∷ [])
                  ∷ [])
                false none
          ssh o
              (fstring ("qm destroy " ∷ vm_ref ∷ " --destroy-unreferenced-disks 0 --purge 0" ∷ []))
              false none)
        else ssh o (fstring ("qm destroy " ∷ vm_ref ∷ [])) false none)
      >>= λ destroyed. pure (ok (fstring ("Deleted VM " ∷ vm_ref ∷ [])))
