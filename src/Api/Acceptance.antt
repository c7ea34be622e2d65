-- ===== src/Api/Acceptance.antt =====
-- What `create_migration` accepts, beside `_validate_pair`.
use pure_hypervisor_integrat.Prelude.{
  ℕ, String, ◌≡◌, ap, ◌∙◌, Bool, true, not, ◌&&◌, some, any, arith,
}
use pure_hypervisor_integrat.Prelude.Json.{Fields, flagged}
use pure_hypervisor_integrat.Api.Http.{is_accepted, ◌>>=◌}
use pure_hypervisor_integrat.Api.Pairs.{Hypervisor, Site, find_hv, validate_pair}
use pure_hypervisor_integrat.Api.Migrations.{
  Database, Submission, in_progress, run_migration, check_submission, create_migration, requested,
  answered,
}
use pure_hypervisor_integrat.Api.Single.{found_id}

module _ (supports : String → Bool) (site : Hypervisor → Site) (migration_id job_id : String)
    (takes : ℕ → Bool) where
  run_migration_returns :
      (source dest : Hypervisor) (vm_ref : String) (network_map options : Fields) (db : Database)
      → find_hv source.id db.hypervisors ≡ some source
      → find_hv dest.id db.hypervisors ≡ some dest
      → is_accepted (
          answered supports site migration_id job_id takes (
            run_migration supports site migration_id job_id takes source.id dest.id vm_ref
              network_map options db))
        ≡ true
  unfolding run_migration
  run_migration_returns source dest vm_ref network_map options db p q = ground (arith, p, q)

  -- For two hypervisors that are there, when the tests are made and when the rows are written, the tests
  -- of `create_migration` accept exactly what those of `_validate_pair` accept with the submission's own
  -- authorization, unless the VM has a migration in progress when this is asked.
  pub create_migration-validate_pair :
      (body : Submission) (seen db : Database) (source dest : Hypervisor)
      → find_hv body.source_hypervisor_id seen.hypervisors ≡ some source
      → find_hv body.dest_hypervisor_id seen.hypervisors ≡ some dest
      → find_hv body.source_hypervisor_id db.hypervisors ≡ some source
      → find_hv body.dest_hypervisor_id db.hypervisors ≡ some dest
      → is_accepted (create_migration supports site migration_id job_id takes body seen db) ≡ (
          is_accepted
            (validate_pair supports site source dest (flagged "allow_array_connect" body.options))
          && not (any (in_progress source.id body.vm_ref) seen.migrations))
  unfolding create_migration validate_pair check_submission ◌>>=◌
  create_migration-validate_pair body seen db source dest p₀ q₀ p q =
      let p' : find_hv source.id db.hypervisors ≡ some source =
        ap (λ x. find_hv x db.hypervisors)
          (found_id body.source_hypervisor_id db.hypervisors source p)
        ∙ p in
      let q' : find_hv dest.id db.hypervisors ≡ some dest =
        ap (λ x. find_hv x db.hypervisors) (found_id body.dest_hypervisor_id db.hypervisors dest q)
        ∙ q in
      let returns =
        run_migration_returns source dest body.vm_ref body.network_map (requested body) db p' q' in
      ground (arith, p₀, q₀, returns)
