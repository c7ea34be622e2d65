-- ===== src/Jobs/Passing.antt =====
-- Settings and assessed clusters, and the theorems at them.
use pure_hypervisor_integrat.Prelude.{ℕ, String, ◌≡◌, refl, Bool, true, Option, some, List, [], ◌∷◌}
use pure_hypervisor_integrat.Prelude.Json.{
  Fields, json_number, json_text, json_list, more_values, no_values, more_fields, no_fields, get,
}
use pure_hypervisor_integrat.Jobs.Settings.{MonitoringPatch}
use pure_hypervisor_integrat.Jobs.Monitor.{Watched, run_monitor_cycle}
use pure_hypervisor_integrat.Jobs.Watching.{Alike, run_monitor_cycle-run_monitor_cycle}

abbrev every_second : MonitoringPatch
every_second = record { enabled = some true; interval_seconds = some 1 }

-- one new host, found at a time
abbrev assessed_at : ℕ → Fields
assessed_at time =
    more_fields "new_hosts" (json_list (more_values (json_text "node3") no_values))
      (more_fields "checked_at" (json_number time) no_fields)

abbrev any_class : String → Bool
any_class key = true

abbrev finds_at : ℕ → Watched → Option Fields
finds_at time hv = some (assessed_at time)

finds_at-Alike :
    (hv : Watched) (state : Fields)
    → Alike (finds_at 1 hv) (finds_at 2 (record hv { state = state }))
unfolding get
finds_at-Alike hv state = (refl, refl)

abbrev clusters : List Watched
clusters =
    record { id = "h1"; connector_key = "proxmox"; status = "deployed"; state = no_fields }
    ∷ record { id = "h2"; connector_key = "xcpng"; status = "connected"; state = no_fields }
    ∷ []

run_monitor_cycle-run_monitor_cycle_example :
    run_monitor_cycle any_class (finds_at 2) (run_monitor_cycle any_class (finds_at 1) clusters).0
    ≡ run_monitor_cycle any_class (finds_at 1) clusters
run_monitor_cycle-run_monitor_cycle_example =
    run_monitor_cycle-run_monitor_cycle any_class (finds_at 1) (finds_at 2) finds_at-Alike clusters
