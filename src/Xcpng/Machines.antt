-- ===== src/Xcpng/Machines.antt =====
-- The VMs of a pool in backend/phif/connectors/xcpng/connector.py: lists and power. Its commands run once each.
use pure_hypervisor_integrat.Prelude.{
  String, Bool, false, ◌==◌, none, List, [], ◌∷◌, map, contains, select, lookup, given, text_or,
  if◌then◌else◌,
}
use pure_hypervisor_integrat.Prelude.Text.{fstring, lower, strip}
use pure_hypervisor_integrat.Prelude.Cuts.{split}
use pure_hypervisor_integrat.Array.Io.{pure, ◌>>=◌, ◌>>◌}
use pure_hypervisor_integrat.Proxmox.Session.{Outside, Act, raised, run, is_mock_or_dry}
use pure_hypervisor_integrat.Proxmox.Machines.{Result, ok}
use pure_hypervisor_integrat.Xcpng.Records.{Record, value_of, parse_records}

-- an entry of `list_vms`
pub record PoolVm : Type 0 where
  pub id : String
  pub name : String
  pub power_state : String

module _ (o : Outside) where
  -- `_sr_name`
  abbrev pub sr_name : String
  sr_name = text_or o.target.sr_name "purefa"

  -- `_host`
  unfoldable pub pool_master : Act String
  pool_master =
      let host = text_or o.target.pool_master_host (text_or o.target.host "") in
      if host == "" then raised "No XCP-ng pool_master_host configured" else pure host

  -- `_ssh` on the pool's master, without a check
  unfoldable pub xe : String → Act String
  unfolding ◌>>=◌ pool_master run
  xe command = pool_master >>= λ h.
      run o (record { host = h; lines = command ∷ []; check = false; timeout = none })

  -- `_xe_get`
  unfoldable pub xe_get : String → String → String → Act String
  unfolding ◌>>=◌ xe strip
  xe_get kind uuid param =
      xe (fstring ("xe " ∷ kind ∷ "-param-get uuid=" ∷ uuid ∷ " param-name=" ∷ param ∷ []))
      >>= λ out. pure (strip out)

  unfoldable pub pool_vm : Record → PoolVm
  unfolding lower
  pool_vm r = record {
    id = value_of "uuid" r;
    name = value_of "name-label" r;
    power_state = if lower (value_of "power-state" r) == "running" then "running" else "stopped";
  }

  -- `list_vms`
  unfoldable pub pool_vms : Act (List PoolVm)
  unfolding ◌>>=◌ xe parse_records pool_vm
  pool_vms =
      if is_mock_or_dry o
      then pure (record { id = "vm-uuid-0"; name = "mock-vm"; power_state = "running" } ∷ [])
      else xe
          "xe vm-list is-control-domain=false is-a-snapshot=false params=uuid,name-label,power-state"
        >>= λ out. pure (map pool_vm (parse_records out))

  -- `list_networks`: ids and names
  unfoldable pub pool_networks : Act (List (String × String))
  unfolding ◌>>=◌ xe parse_records
  pool_networks =
      if is_mock_or_dry o
      then pure (("net-uuid-0", "Pool-wide network associated with eth0") ∷ [])
      else xe "xe network-list params=uuid,name-label" >>= λ out. pure (
          map (λ r. (value_of "uuid" r, value_of "name-label" r))
            (select (λ r. given (lookup "uuid" r)) (parse_records out)))

  -- `power_state`
  unfoldable pub pool_power_state : String → Act String
  unfolding ◌>>=◌ xe_get lower
  pool_power_state vm_ref =
      if is_mock_or_dry o
      then pure "running"
      else xe_get "vm" vm_ref "power-state" >>= λ out.
          let ps = lower out in
          pure (
            if ps == "running"
            then "running"
            else if contains ps ("halted" ∷ "suspended" ∷ "paused" ∷ [])
            then "stopped"
            else "unknown")

  -- `stop_vm`
  unfoldable pub stop_pool_vm : String → Bool → Act Result
  unfolding ◌>>=◌ xe pool_power_state
  stop_pool_vm vm_ref force = do
    state ← pool_power_state vm_ref
    if state == "stopped"
        then pure (ok (fstring ("VM " ∷ vm_ref ∷ " already stopped" ∷ [])))
        else xe
            (fstring ("xe vm-shutdown uuid=" ∷ vm_ref ∷ (if force then " --force" else "") ∷ []))
          >>= λ out. pure (ok (fstring ("Stopped VM " ∷ vm_ref ∷ [])))

  -- the storage repositories are scanned
  unfoldable pub scan_each : List String → Act (Unit {0})
  unfolding ◌>>=◌ xe strip
  scan_each [] = pure tt
  scan_each (sr ∷ srs) =
      let rest = scan_each srs in
      if strip sr == ""
      then rest
      else xe (fstring ("xe sr-scan uuid=" ∷ strip sr ∷ [])) >>= λ out. rest

  -- `start_vm`
  unfoldable pub start_pool_vm : String → Act Result
  unfolding ◌>>=◌ xe pool_power_state scan_each split strip
  start_pool_vm vm_ref = do
    state ← pool_power_state vm_ref
    if state == "running"
        then pure (ok (fstring ("VM " ∷ vm_ref ∷ " already running" ∷ [])))
        else (do
          srs ← xe "xe sr-list type=purefa --minimal"
          if strip srs == "" then pure tt else scan_each (split 44 (strip srs))
          started ← xe (fstring ("xe vm-start uuid=" ∷ vm_ref ∷ []))
          pure (ok (fstring ("Started VM " ∷ vm_ref ∷ []))))
