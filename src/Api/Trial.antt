-- ===== src/Api/Trial.antt =====
-- Tests and witnesses: three hypervisors, two of them on one array, and an array that replicates to it.
use pure_hypervisor_integrat.Prelude.{
  String, ◌≡◌, refl, Bool, true, false, not, ◌&&◌, ◌==◌, none, some, [], ◌∷◌, map, any, select,
  text_or, if◌then◌else◌, arith, ap, eq_iff,
}
use pure_hypervisor_integrat.Prelude.Text.{lower, strip, includes}
use pure_hypervisor_integrat.Prelude.Json.{no_fields, flagged}
use pure_hypervisor_integrat.Api.Http.{is_accepted}
use pure_hypervisor_integrat.Api.Pairs.{
  Hypervisor, Connection, Site, arrayless, reached, same_array, find_hv, validate_pair,
  is_replication_connection,
}
use pure_hypervisor_integrat.Api.Destinations.{name_found, migration_destinations}
use pure_hypervisor_integrat.Api.Migrations.{Database, Submission, in_progress, create_migration}
use pure_hypervisor_integrat.Api.Groups.{BatchMember, Batch, unbegun, cancel_migration_group}
use pure_hypervisor_integrat.Api.Agreement.{
  IsNamed, offered, valid, migration_destinations-validate_pair,
}
use pure_hypervisor_integrat.Api.Single.{Single, Stored, create_migration-Single}
use pure_hypervisor_integrat.Api.Acceptance.{create_migration-validate_pair}
use pure_hypervisor_integrat.Api.Lifecycle.{Cancelled, cancel_migration_group-Cancelled}

abbrev to_beta : Connection
to_beta = record { name = some "beta"; kind = some "async-replication" }

abbrev fleet_only : Connection
fleet_only = record { name = some "beta"; kind = some "fleet-management" }

abbrev all_supported : String → Bool
all_supported key = true

abbrev site_of : String → Site
site_of id =
    if id == "a1"
    then reached (some "alpha") (some (fleet_only ∷ to_beta ∷ []))
    else if id == "a2"
    then reached (some "beta") (some [])
    else arrayless

abbrev sites : Hypervisor → Site
sites h = site_of (text_or h.array_id "")

sites_alike :
    (g h : Hypervisor) → same_array g h ≡ true → name_found (sites g) ≡ name_found (sites h)
sites_alike g h same =
    ap (λ id. name_found (site_of id))
      ((eq_iff (text_or g.array_id "") (text_or h.array_id "")).0 same)

sites_IsNamed : (h : Hypervisor) → IsNamed (sites h)
sites_IsNamed h = by_tests (text_or h.array_id "" == "a1") (text_or h.array_id "" == "a2")
  where
    by_tests :
        (one two : Bool)
        → IsNamed (
            if one
            then reached (some "alpha") (some (fleet_only ∷ to_beta ∷ []))
            else if two
            then reached (some "beta") (some [])
            else arrayless)
    by_tests true two = refl
    by_tests false true = refl
    by_tests false false = tt

abbrev pve : Hypervisor
pve = record { id = "h1"; name = "pve"; connector_key = "proxmox"; array_id = some "a1" }

abbrev xcp : Hypervisor
xcp = record { id = "h2"; name = "xcp"; connector_key = "xcpng"; array_id = some "a2" }

abbrev vme : Hypervisor
vme = record { id = "h3"; name = "vme"; connector_key = "hpevme"; array_id = none }

replication_kinds :
    (is_replication_connection (some " Async-Replication ") ≡ true)
    × (is_replication_connection (some "fleet-management") ≡ false)
unfolding is_replication_connection lower strip includes
replication_kinds = (refl, refl)

migration_destinations-validate_pair_example :
    map
      (offered all_supported sites sites_alike sites_IsNamed false)
      (migration_destinations all_supported sites pve (pve ∷ xcp ∷ vme ∷ []))
    ≡ map
        (valid all_supported sites sites_alike sites_IsNamed pve false)
        (select (λ hv. not (hv.id == pve.id)) (pve ∷ xcp ∷ vme ∷ []))
migration_destinations-validate_pair_example =
    migration_destinations-validate_pair all_supported sites sites_alike sites_IsNamed pve false
      (pve ∷ xcp ∷ vme ∷ [])

abbrev tables : Database
tables = record { hypervisors = pve ∷ xcp ∷ vme ∷ []; migrations = []; jobs = [] }

abbrev submitted : Submission
submitted = record {
  source_hypervisor_id = "h1";
  dest_hypervisor_id = "h2";
  vm_ref = "100";
  network_map = no_fields;
  options = no_fields;
  dry_run = false;
}

tables-Single : Single tables
tables-Single source vm_ref = omega arith

create_migration-Single_example :
    Stored Single
      (create_migration all_supported sites "m1" "j1" (λ n. true) submitted tables tables)
create_migration-Single_example =
    create_migration-Single all_supported sites "m1" "j1" (λ n. true) submitted tables tables
      (λ source q. q) tables-Single

create_migration-validate_pair_example :
    is_accepted (create_migration all_supported sites "m1" "j1" (λ n. true) submitted tables tables)
    ≡ (is_accepted (
          validate_pair all_supported sites pve xcp
            (flagged "allow_array_connect" submitted.options))
        && not (any (in_progress pve.id submitted.vm_ref) tables.migrations))
unfolding find_hv
create_migration-validate_pair_example =
    create_migration-validate_pair all_supported sites "m1" "j1" (λ n. true) submitted tables tables
      pve xcp refl refl refl refl

abbrev with_status : String → BatchMember
with_status status = record {
  source_hypervisor_id = "h1";
  dest_hypervisor_id = "h2";
  vm_ref = "100";
  network_map = no_fields;
  options = no_fields;
  progress = record unbegun { status = some status };
}

abbrev half_done : Batch
half_done = record {
  id = "g1";
  name = "group";
  status = "partial";
  scheduled_at = none;
  concurrency = 2;
  continue_on_error = true;
  options = no_fields;
  members = with_status "succeeded" ∷ with_status "failed" ∷ [];
  finished_at = some 9;
}

abbrev planned : Batch
planned = record half_done { status = "scheduled"; scheduled_at = some 50 }

cancel_migration_group-Cancelled_example : Cancelled planned (cancel_migration_group planned)
cancel_migration_group-Cancelled_example = cancel_migration_group-Cancelled planned
