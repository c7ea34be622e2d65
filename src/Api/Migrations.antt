-- ===== src/Api/Migrations.antt =====
-- `create_migration`, with `run_migration` and `_update_migration` of backend/phif/migrate/service.py:
-- a request for a migration, its row and its job. The ids of the row and of the job, which the database
-- makes, are parameters, and so is whether the database takes an update, at each of its tries.
use pure_hypervisor_integrat.Prelude.{
  given, text_or, ℕ, zero, suc, String, Bool, true, not, ◌&&◌, ◌==◌, Option, none, some, List, [],
  ◌∷◌, map, any, contains, if◌then◌else◌,
}
use pure_hypervisor_integrat.Prelude.Text.{fstring, repr}
use pure_hypervisor_integrat.Prelude.Json.{Fields, json_bool, no_fields, put, flagged}
use pure_hypervisor_integrat.Api.Http.{Response, accepted, refused, ◌>>=◌, insist}
use pure_hypervisor_integrat.Api.Pairs.{
  Hypervisor, Site, find_hv, get_hv, is_cross, array_connection_status, same_array,
}

-- a row of the migrations
pub record Migration : Type 0 where
  pub id : String
  pub source_hypervisor_id : String
  pub dest_hypervisor_id : String
  pub vm_ref : String
  pub dest_vm_ref : Option String
  pub network_map : Fields
  pub options : Fields
  pub spec : Fields
  pub phase : String
  pub status : String
  pub job_id : Option String
  pub result : Fields

-- the arguments of `create_and_run`
pub record MigrateJob : Type 0 where
  pub id : String
  pub hypervisor_id : String
  pub connector_key : String
  pub vm_ref : String
  pub dest_hypervisor_id : String
  pub network_map : Fields

-- the tables that the request reads and writes
pub record Database : Type 0 where
  pub hypervisors : List Hypervisor
  pub migrations : List Migration
  pub jobs : List MigrateJob

-- `MigrationCreate`
pub record Submission : Type 0 where
  pub source_hypervisor_id : String
  pub dest_hypervisor_id : String
  pub vm_ref : String
  pub network_map : Fields
  pub options : Fields
  pub dry_run : Bool

-- the row of an id, changed
unfoldable pub change_row : String → (Migration → Migration) → List Migration → List Migration
change_row id change = map (λ m. if m.id == id then change m else m)

-- `_update_migration`, with the number of tries that are left
unfoldable pub update_migration :
    (ℕ → Bool) → ℕ → String → (Migration → Migration) → List Migration → List Migration
update_migration takes zero id change rows = rows
update_migration takes (suc n) id change rows =
    let again = update_migration takes n id change rows in
    if takes n then change_row id change rows else again

-- the new row
abbrev pub pending_row : String → String → String → String → Fields → Fields → Migration
pending_row id source dest vm_ref network_map options = record {
  id = id;
  source_hypervisor_id = source;
  dest_hypervisor_id = dest;
  vm_ref = vm_ref;
  dest_vm_ref = none;
  network_map = network_map;
  options = options;
  spec = no_fields;
  phase = "pending";
  status = "pending";
  job_id = none;
  result = no_fields;
}

-- the query for a migration of the VM that is not over
abbrev pub in_progress : String → String → Migration → Bool
in_progress source vm_ref m =
    m.source_hypervisor_id == source
    && (m.vm_ref == vm_ref && contains m.status ("pending" ∷ "running" ∷ []))

-- the options that a request passes on
abbrev pub requested : Submission → Fields
requested body = if body.dry_run then put "dry_run" (json_bool true) body.options else body.options

module _ (supports : String → Bool) (site : Hypervisor → Site) where
  -- the tests of the pair that `create_migration` makes, in its own words
  unfoldable pub check_submission : Hypervisor → Hypervisor → Bool → Response (Unit {0})
  check_submission source dest allow_array_connect = do
    _ ← insist (not (source.id == dest.id)) 400 "Source and destination must differ"
    _ ←
        insist (supports source.connector_key) 400
          (fstring (repr source.connector_key ∷ " cannot be a migration source" ∷ []))
    _ ←
        insist (supports dest.connector_key) 400
          (fstring (repr dest.connector_key ∷ " cannot be a migration destination" ∷ []))
    _ ←
        insist (given source.array_id && given dest.array_id) 400
          "Both source and destination must be associated with a FlashArray"
    let status = array_connection_status supports site source dest
    if not (same_array source dest) && not allow_array_connect
        then insist (status.0) 409 (
            fstring (
              "Source and destination are on different FlashArrays. An array connection to "
              ∷ repr (text_or (some (status.1)) "the destination array")
              ∷ " is required to send the volume; re-submit with authorization to configure it."
              ∷ []))
        else accepted tt

module _ (supports : String → Bool) (site : Hypervisor → Site) (migration_id job_id : String)
    (takes : ℕ → Bool) where
  -- `run_migration`, for the rows of the two hypervisors
  unfoldable pub launch :
      Hypervisor → Hypervisor → String → Fields → Fields → Database → (String × String) × Database
  launch source dest vm_ref network_map options db =
      let opts = put "cross_array" (json_bool (is_cross supports site source dest)) options in
      let row = pending_row migration_id source.id dest.id vm_ref network_map opts in
      let job : MigrateJob = record {
        id = job_id;
        hypervisor_id = source.id;
        connector_key = source.connector_key;
        vm_ref = vm_ref;
        dest_hypervisor_id = dest.id;
        network_map = network_map;
      } in
      (
        (migration_id, job_id),
        record db {
          migrations =
              update_migration takes 3 migration_id (λ m. record m { job_id = some job_id })
                (row ∷ db.migrations);
          jobs = job ∷ db.jobs;
        },
      )

  -- `run_migration`; `none` is its ValueError
  unfoldable pub run_migration :
      String → String → String → Fields → Fields → Database → Option ((String × String) × Database)
  unfolding launch
  run_migration source_id dest_id vm_ref network_map options db =
      elim (find_hv source_id db.hypervisors) [
        | none ↦ none
        | some source ↦ elim (find_hv dest_id db.hypervisors) [
          | none ↦ none
          | some dest ↦ some (launch source dest vm_ref network_map options db)
        ]
      ]

  -- the answer of the request, from that of `run_migration`
  abbrev pub answered :
      Option ((String × String) × Database) → Response ((String × String) × Database)
  answered none = refused 400 "source or destination hypervisor not found"
  answered (some r) = accepted r

  -- `create_migration`: the tests are made on what its queries have seen, and the rows are written to the
  -- database as it is by then, since other requests can run between them
  unfoldable pub create_migration :
      Submission → Database → Database → Response ((String × String) × Database)
  create_migration body seen db = do
    source ← get_hv body.source_hypervisor_id seen.hypervisors
    dest ← get_hv body.dest_hypervisor_id seen.hypervisors
    _ ← check_submission supports site source dest (flagged "allow_array_connect" body.options)
    _ ←
        insist (not (any (in_progress source.id body.vm_ref) seen.migrations)) 409
          "This VM already has a migration in progress"
    answered (run_migration source.id dest.id body.vm_ref body.network_map (requested body) db)
