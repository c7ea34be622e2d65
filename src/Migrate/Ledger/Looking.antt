-- ===== src/Migrate/Ledger/Looking.antt =====
-- The invariant of a migration through the steps of Migrate/Preflight and through the helpers of
-- Migrate/Service.
use pure_hypervisor_integrat.Prelude.{ℕ, zero, suc, String, Option, none, some, List, [], ◌∷◌}
use pure_hypervisor_integrat.Migrate.Spec.{DiskSpec, NicSpec, VmSpec}
use pure_hypervisor_integrat.Migrate.World.{Side, Event, Trace, Connectors}
use pure_hypervisor_integrat.Migrate.Service.{Config, poll, await_power}
use pure_hypervisor_integrat.Migrate.Preflight.{
  preflight_source, preflight_dest, not_ready, host_readiness, group_configured, host_groups,
  check_networks, preflight, check_nics, capture_spec, prepare_source, cleanup_scratch_of,
  cleanup_scratch, resolve_disk, resolve_disks, resolve_volumes,
}
use pure_hypervisor_integrat.Migrate.Ledger.Defs.{Good}
use pure_hypervisor_integrat.Migrate.Ledger.Rules.{
  Preserves, Preserves-bind, Preserves-require, good_rules,
}

module _ {c : Connectors} {cfg : Config} {E : Trace → Type 0}
    (grow : (e : Event) (t : Trace) → E t → E (e ∷ t)) where
  poll-Good :
      (side : Side) (ref target : String) (delay left : ℕ) (last : String)
      → Preserves (Good c cfg E) (poll c side ref target delay left last)
  unfolding poll
  poll-Good side ref target delay zero last = search good_rules
  poll-Good side ref target delay (suc left) last =
      search (good_rules, poll-Good side ref target delay left) depth 20

  pub await_power-Good :
      (side : Side) (ref target : String)
      → Preserves (Good c cfg E) (await_power c cfg side ref target)
  unfolding await_power
  await_power-Good side ref target = search (good_rules, poll-Good)

  preflight_source-Good : Preserves (Good c cfg E) (preflight_source c)
  unfolding preflight_source
  preflight_source-Good = search good_rules depth 20

  preflight_dest-Good : Preserves (Good c cfg E) (preflight_dest c)
  unfolding preflight_dest
  preflight_dest-Good = search good_rules depth 20

  not_ready-Good : (message : String) → Preserves (Good c cfg E) (not_ready c message)
  unfolding not_ready
  not_ready-Good message = search good_rules

  host_readiness-Good : Preserves (Good c cfg E) (host_readiness c)
  unfolding host_readiness
  host_readiness-Good = search (good_rules, not_ready-Good) depth 20

  host_groups-Good : Preserves (Good c cfg E) (host_groups c)
  unfolding host_groups group_configured
  host_groups-Good = search (good_rules, host_readiness-Good) depth 20

  check_networks-Good : Preserves (Good c cfg E) (check_networks c cfg)
  unfolding check_networks
  check_networks-Good = search good_rules depth 20

  pub preflight-Good : Preserves (Good c cfg E) (preflight c cfg)
  unfolding preflight
  preflight-Good =
      search
        (
          good_rules, preflight_source-Good, preflight_dest-Good, host_groups-Good,
          check_networks-Good,
        )
        depth 20

  check_nics-Good : (nics : List NicSpec) → Preserves (Good c cfg E) (check_nics c cfg nics)
  unfolding check_nics
  check_nics-Good [] = search good_rules
  check_nics-Good (nic ∷ rest) =
      Preserves-bind _ _ (Preserves-require _ _) (λ _. check_nics-Good rest)

  pub capture_spec-Good : Preserves (Good c cfg E) (capture_spec c cfg)
  unfolding capture_spec
  capture_spec-Good = search (good_rules, check_nics-Good) depth 20

  pub prepare_source-Good : Preserves (Good c cfg E) (prepare_source c cfg)
  unfolding prepare_source
  prepare_source-Good = search good_rules depth 20

  cleanup_scratch_of-Good :
      (o : Option VmSpec) → Preserves (Good c cfg E) (cleanup_scratch_of c cfg o)
  unfolding cleanup_scratch_of
  cleanup_scratch_of-Good none = search good_rules
  cleanup_scratch_of-Good (some v) = search good_rules

  pub cleanup_scratch-Good : Preserves (Good c cfg E) (cleanup_scratch c cfg)
  unfolding cleanup_scratch
  cleanup_scratch-Good = search (good_rules, cleanup_scratch_of-Good)

  resolve_disk-Good : (d : DiskSpec) → Preserves (Good c cfg E) (resolve_disk c d)
  unfolding resolve_disk
  resolve_disk-Good d = search good_rules depth 20

  resolve_disks-Good :
      (v : VmSpec) (done rest : List DiskSpec)
      → Preserves (Good c cfg E) (resolve_disks c v done rest)
  unfolding resolve_disks
  resolve_disks-Good v done [] = search good_rules
  resolve_disks-Good v done (d ∷ rest) =
      search
        (good_rules, resolve_disk-Good, λ (seen : List DiskSpec). resolve_disks-Good v seen rest)
        depth 20

  pub resolve_volumes-Good : Preserves (Good c cfg E) (resolve_volumes c)
  unfolding resolve_volumes
  resolve_volumes-Good = search (good_rules, resolve_disks-Good) depth 20
