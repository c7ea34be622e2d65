-- ===== src/Migrate/Preflight.antt =====
-- The steps of migrate/service.py that only look: `_preflight`, `_capture_spec`, and with them
-- `_prepare_source_disks`, `_cleanup_scratch` and `_resolve_volumes`.
use pure_hypervisor_integrat.Prelude.{
  ℕ, zero, suc, ◌/◌, String, Bool, false, not, Option, none, some, List, [], ◌∷◌, ◌++◌, map, ◌==◌,
  ◌||◌, ◌&&◌, if◌then◌else◌, given, is_empty, any, select, contains, length, maybe,
}
use pure_hypervisor_integrat.Prelude.Text.{fstring, repr, str, join, sorted_set}
use pure_hypervisor_integrat.Migrate.Spec.{DiskSpec, NicSpec, VmSpec}
use pure_hypervisor_integrat.Migrate.World.{
  source, dest, Error, migration_error, other_error, Volume, Connectors, validate_connection,
  require_host_objects, list_networks, capture_vm_spec, prepare_source_disks,
  cleanup_migration_scratch, get_volume,
}
use pure_hypervisor_integrat.Migrate.Act.{
  Act, pure, raise, gets, modify, require, attempt, emit, perform, judged, returned, ◌>>=◌, ◌>>◌,
}
use pure_hypervisor_integrat.Migrate.Service.{Config, phase, skip, is_mock, the_spec, not_an_array}

-- the text of an exception, as `str(exc)` gives it
abbrev pub error_text : Error → String
error_text (migration_error t) = t
error_text (other_error name t) = t

module _ (c : Connectors) where
  -- the first half of `_preflight`
  unfoldable pub preflight_source : Act (Unit {0})
  preflight_source = do
    phase "preflight: source"
    require (c.supports_migrate source) (
        migration_error (
          fstring
            ("source connector " ∷ repr (c.key source) ∷ " cannot act as a migration source" ∷ [])))
    require (c.has_array source) (migration_error "source hypervisor has no associated FlashArray")
    r ← perform (validate_connection source) judged (λ t. c.reply t (validate_connection source))
    require r.success (migration_error (fstring ("source connection invalid: " ∷ r.message ∷ [])))

  -- the second half, up to the host groups
  unfoldable pub preflight_dest : Act (Unit {0})
  preflight_dest = do
    phase "preflight: destination"
    require (c.supports_migrate dest) (
        migration_error (
          fstring
            ("destination connector " ∷ repr (c.key dest) ∷ " cannot act as a destination" ∷ [])))
    require (c.has_array dest)
        (migration_error "destination hypervisor has no associated FlashArray")
    r ← perform (validate_connection dest) judged (λ t. c.reply t (validate_connection dest))
    require r.success
        (migration_error (fstring ("destination connection invalid: " ∷ r.message ∷ [])))

  -- a host group that is not ready is advisory only for a mock destination
  unfoldable pub not_ready : String → Act (Unit {0})
  not_ready message =
      if is_mock c dest
      then emit (fstring ("[mock] skipping host-group readiness: " ∷ message ∷ []))
      else raise (migration_error (fstring ("destination not ready: " ∷ message ∷ [])))

  -- `require_host_objects` of the destination's host group, if it has one
  unfoldable pub host_readiness : Act (Unit {0})
  host_readiness = do
    let hg = c.migration_host_group dest
    if hg == "" then pure tt else do
      pf ← perform (require_host_objects hg) judged (λ t. c.reply t (require_host_objects hg))
      if pf.success then pure tt else not_ready pf.message

  -- whether the destination needs a host group, and has one
  unfoldable pub group_configured : Act (Unit {0})
  group_configured =
      if c.manages_volume_presentation
      then emit (
          fstring (
            "[migrate] "
            ∷ c.key dest
            ∷ " presents FlashArray volumes itself; "
            ∷ "no destination host group is required"
            ∷ []))
      else require (not (c.migration_host_group dest == ""))
          (migration_error "destination hypervisor has no FlashArray host group configured")

  -- the host groups, and whether the destination needs one
  unfoldable pub host_groups : Act (Unit {0})
  unfolding group_configured host_readiness
  host_groups = do
    modify (λ s. record s {
      source_hg = c.migration_host_group source;
      dest_hg = c.migration_host_group dest;
    })
    group_configured
    host_readiness

-- `x is not None and x == v`
abbrev is_text : String → Option String → Bool
is_text v none = false
is_text v (some x) = x == v

-- the mapped networks that no network of the destination carries as its id (of the first listing) or
-- its name (of the second)
unfoldable pub unknown_networks :
    List (Option String × Option String)
    → List (Option String × Option String)
    → List (String × String)
    → List String
unknown_networks ids names network_map =
    select
      (λ v. not (v == "") && not (any (λ n. is_text v n.0) ids || any (λ n. is_text v n.1) names))
      (map (λ p. p.1) network_map)

module _ (c : Connectors) (cfg : Config) where
  -- every mapped destination network must resolve
  unfoldable pub check_networks : Act (Unit {0})
  check_networks = do
    ids ← perform list_networks returned c.networks
    names ← perform list_networks returned c.networks
    let unknown = unknown_networks ids names cfg.network_map
    require (is_empty unknown) (
        migration_error
          (fstring ("destination network(s) not found: " ∷ join ", " (sorted_set unknown) ∷ [])))

  -- `_preflight`
  unfoldable pub preflight : Act (Unit {0})
  unfolding preflight_source preflight_dest host_groups check_networks
  preflight = do preflight_source c; preflight_dest c; host_groups c; check_networks

  -- the loop over the NICs of `_capture_spec`
  unfoldable pub check_nics : List NicSpec → Act (Unit {0})
  check_nics [] = pure tt
  check_nics (nic ∷ rest) = do
    require (contains nic.source_network (map (λ p. p.0) cfg.network_map)) (
        migration_error (
          fstring (
            "no destination network mapping for source NIC on "
            ∷ repr nic.source_network
            ∷ " (mac "
            ∷ nic.mac
            ∷ ")"
            ∷ [])))
    check_nics rest

  -- `_capture_spec`
  unfoldable pub capture_spec : Act (Unit {0})
  unfolding check_nics
  capture_spec = do
    phase "capture source VM spec"
    v ← perform (capture_vm_spec cfg.vm_ref) returned (λ t. c.captured t cfg.vm_ref)
    modify (λ s. record s { spec = some v })
    require (not (is_empty v.disks))
        (migration_error "source VM has no FlashArray-backed disks to migrate")
    check_nics v.nics
    emit (
        fstring (
          "[capture] "
          ∷ v.name
          ∷ ": "
          ∷ str v.vcpus
          ∷ " vCPU, "
          ∷ str (v.memory_bytes / 1048576)
          ∷ " MiB, "
          ∷ str (length v.disks)
          ∷ " disk(s), "
          ∷ str (length v.nics)
          ∷ " NIC(s), firmware="
          ∷ v.firmware
          ∷ []))

  -- `_prepare_source_disks`
  unfoldable pub prepare_source : Act (Unit {0})
  prepare_source = do
    v ← the_spec
    skipped ← skip cfg (
        fstring (
          "let the source connector stage per-disk FlashArray volumes "
          ∷ "(e.g. vSphere VMFS -> RDM clone)" ∷ []))
    if skipped then pure tt else do
      updated ← perform (prepare_source_disks v) returned (λ t. c.prepared t v)
      maybe updated (pure tt) (λ v'. modify (λ s. record s { spec = some v' }))

  -- `_cleanup_scratch` of a VM's spec
  unfoldable pub cleanup_scratch_of : Option VmSpec → Act (Unit {0})
  cleanup_scratch_of none = pure tt
  cleanup_scratch_of (some v) =
      attempt
        (perform (cleanup_migration_scratch v) returned
          (λ t. c.effect t (cleanup_migration_scratch v)))
        (λ exc. emit (fstring ("[migration] scratch cleanup warning: " ∷ error_text exc ∷ [])))

  -- `_cleanup_scratch`
  unfoldable pub cleanup_scratch : Act (Unit {0})
  unfolding cleanup_scratch_of
  cleanup_scratch = do v ← gets (λ s. s.spec); cleanup_scratch_of v

-- what `_resolve_volumes` fills in of a disk: `disk.serial or vol.serial`, and the same for the size
abbrev pub filled_text : Option String → Option String → Option String
filled_text mine other = if given mine then mine else other

abbrev pub filled_size : Option ℕ → Option ℕ → Option ℕ
filled_size none other = other
filled_size (some n) other = elim n [ zero ↦ other | suc k ↦ some (suc k) ]

unfoldable pub resolved : DiskSpec → Volume → DiskSpec
resolved d vol = record d {
  identity = record d.identity {
    serial = filled_text d.identity.serial vol.serial;
    size_bytes = filled_size d.identity.size_bytes vol.size;
  };
}

abbrev pub serial_text : Option String → String
serial_text none = "None"
serial_text (some s) = s

module _ (c : Connectors) where
  -- a volume that the array does not have
  unfoldable pub no_volume : DiskSpec → Act DiskSpec
  no_volume d =
      if is_mock c source
      then (do
        emit (fstring ("[mock] skipping volume existence check for " ∷ d.identity.fa_volume ∷ []))
        pure d)
      else raise (
          migration_error
            (fstring ("FlashArray volume " ∷ repr d.identity.fa_volume ∷ " not found" ∷ [])))

  -- a volume that it has
  unfoldable pub found_volume : DiskSpec → Volume → Act DiskSpec
  unfolding resolved
  found_volume d vol = do
    let name = d.identity.fa_volume
    require (not vol.destroyed)
        (migration_error (fstring ("FlashArray volume " ∷ repr name ∷ " is destroyed" ∷ [])))
    emit (
        fstring (
          "[resolve] "
          ∷ name
          ∷ " serial="
          ∷ serial_text (filled_text d.identity.serial vol.serial)
          ∷ []))
    pure (resolved d vol)

  -- the body of the loop of `_resolve_volumes`: the disk as it is afterwards
  unfoldable pub resolve_disk : DiskSpec → Act DiskSpec
  unfolding no_volume found_volume
  resolve_disk d = do
    let name = d.identity.fa_volume
    require (c.has_array source) not_an_array
    found ← perform (get_volume name) returned (λ t. c.volume t name)
    maybe found (no_volume d) (found_volume d)

  -- The loop, after the disks `done`. Each disk is changed in place, within the spec.
  unfoldable pub resolve_disks : VmSpec → List DiskSpec → List DiskSpec → Act (Unit {0})
  resolve_disks v done [] = pure tt
  resolve_disks v done (d ∷ rest) = do
    d' ← resolve_disk d
    modify (λ s. record s { spec = some (record v { disks = done ++ (d' ∷ rest) }) })
    resolve_disks v (done ++ (d' ∷ [])) rest

  -- `_resolve_volumes`
  unfoldable pub resolve_volumes : Act (Unit {0})
  resolve_volumes = do phase "resolve FlashArray volumes"; v ← the_spec; resolve_disks v [] v.disks
