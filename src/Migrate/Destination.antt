-- ===== src/Migrate/Destination.antt =====
-- The steps of migrate/service.py that name and create the destination VM.
use pure_hypervisor_integrat.Prelude.{
  ℕ, zero, suc, ◌/◌, String, false, Option, none, some, List, [], ◌∷◌, ◌++◌, map, if◌then◌else◌,
  text_or, given, flag_or, contains, maybe, length, is_empty,
}
use pure_hypervisor_integrat.Prelude.Text.{fstring, repr, str, join}
use pure_hypervisor_integrat.Migrate.Spec.{VmSpec}
use pure_hypervisor_integrat.Migrate.World.{
  migration_error, Placement, Connectors, list_vms, create_vm,
}
use pure_hypervisor_integrat.Migrate.Act.{
  Act, teardown_dest, pure, modify, require, attempt, emit, perform, judged, returned, push, ◌>>=◌,
  ◌>>◌,
}
use pure_hypervisor_integrat.Migrate.Service.{Config, dry_run, phase, the_spec, the_dest_ref}

-- f"{base}-{n}"
unfoldable pub numbered : String → ℕ → String
numbered base n = fstring (base ∷ "-" ∷ str n ∷ [])

-- `while f"{base}-{n}" in existing: n += 1`, for so many rounds at most
unfoldable pub free_number : ℕ → List String → String → ℕ → ℕ
free_number zero existing base n = n
free_number (suc f) existing base n =
    let next = free_number f existing base (suc n) in
    if contains (numbered base n) existing then next else n

-- The name that `_ensure_unique_dest_name` settles on, given the names that the destination has. As
-- many rounds as there are names are enough.
unfoldable pub unique_name : List String → String → String
unfolding numbered free_number
unique_name existing base =
    if contains base existing
    then numbered base (free_number (length existing) existing base 1)
    else base

-- the entries of the placement, as Python prints them
abbrev placement_entries : Placement → List String
placement_entries p =
    text_entry "cluster" p.cluster
    ++ (text_entry "storage" p.storage
        ++ ((if p.convert_to_vmfs then "'convert_to_vmfs': True" ∷ [] else [])
            ++ text_entry "vmfs_datastore" p.vmfs_datastore))
  where
    text_entry : String → Option String → List String
    text_entry k none = []
    text_entry k (some v) = fstring (repr k ∷ ": " ∷ repr v ∷ []) ∷ []

-- an option that is false is left out of the placement
abbrev kept : Option String → Option String
kept o = if given o then o else none

unfoldable pub placement : Config → Placement
placement cfg = record {
  cluster = kept cfg.options.dest_cluster;
  storage = kept cfg.options.dest_storage;
  convert_to_vmfs = flag_or cfg.options.convert_to_vmfs false;
  vmfs_datastore = kept cfg.options.vmfs_datastore;
}

-- `placement or None`
abbrev pub placement_or_none : Placement → Option Placement
placement_or_none p = if is_empty (placement_entries p) then none else some p

module _ (c : Connectors) where
  -- the destination's VMs cannot be listed
  unfoldable pub unlisted_name : VmSpec → Act (Unit {0})
  unlisted_name v = do
    let name = fstring (v.name ∷ "-" ∷ "mig" ∷ [])
    modify (λ s. record s { spec = some (record v { name = name }) })
    emit (
        fstring (
          "[dest] could not list destination VMs; using '" ∷ name
          ∷ "' to avoid overwriting an existing VM" ∷ []))

  -- they have these names
  unfoldable pub listed_name : VmSpec → List String → Act (Unit {0})
  listed_name v existing = do
    let name = unique_name existing v.name
    modify (λ s. record s { spec = some (record v { name = name }) })
    if contains v.name existing
        then emit (
            fstring (
              "[dest] a VM named '" ∷ v.name ∷ "' already exists at the destination; creating '"
              ∷ name ∷ "' instead (not overwriting it)" ∷ []))
        else pure tt

  -- `_ensure_unique_dest_name`; no `migration_id` is ever set on the service
  unfoldable pub ensure_unique_dest_name : Act (Unit {0})
  unfolding unlisted_name listed_name
  ensure_unique_dest_name = do
    v ← the_spec
    listed ←
        attempt
          (do vms ← perform list_vms returned c.vms; pure (some (map (λ o. text_or o "") vms)))
          (λ exc. pure none)
    maybe listed (unlisted_name v) (listed_name v)

abbrev pub teardown_label : String → String
teardown_label ref = fstring ("stop + delete destination VM " ∷ ref ∷ " (free its new disks)" ∷ [])

module _ (c : Connectors) (cfg : Config) where
  -- the dry run's part of `_create_dest_vm`
  unfoldable pub plan_dest_vm : VmSpec → Act (Unit {0})
  plan_dest_vm v = do
    emit (
        fstring (
          "[dry-run] would create destination VM "
          ∷ repr v.name
          ∷ " ("
          ∷ str v.vcpus
          ∷ " vCPU, "
          ∷ str (v.memory_bytes / 1073741824)
          ∷ " GiB, firmware="
          ∷ v.firmware
          ∷ ") placement={"
          ∷ join ", " (placement_entries (placement cfg))
          ∷ "}"
          ∷ []))
    modify (λ s. record s { dest_vm_ref = some (fstring ("dry-run-" ∷ v.name ∷ [])) })

  -- the rest of it: the VM, and its compensation
  unfoldable pub make_dest_vm : VmSpec → Act (Unit {0})
  make_dest_vm v = do
    let p = placement_or_none (placement cfg)
    r ←
        perform (create_vm v cfg.network_map p) judged
          (λ t. c.reply t (create_vm v cfg.network_map p))
    require r.success
        (migration_error (fstring ("failed to create destination VM: " ∷ r.message ∷ [])))
    modify (λ s. record s { dest_vm_ref = r.vm_ref })
    require (given r.vm_ref) (migration_error "destination create_vm did not return a vm_ref")
    ref ← the_dest_ref
    push (teardown_label ref) (teardown_dest ref)
    emit (fstring ("[dest] created VM " ∷ ref ∷ []))

  -- `_create_dest_vm`
  unfoldable pub create_dest_vm : Act (Unit {0})
  create_dest_vm = do
    phase "create destination VM"
    ensure_unique_dest_name c
    v ← the_spec
    if dry_run cfg then plan_dest_vm v else make_dest_vm v
