-- ===== src/Jobs/Restart.antt =====
-- What a restart leaves: theorems about `reconcile_orphaned_jobs`.
use pure_hypervisor_integrat.Prelude.{
  ◌≡◌, refl, Bool, true, false, List, [], ◌∷◌, All, map, select, length, if◌then◌else◌, ap, ◌∙◌,
  arith,
}
use pure_hypervisor_integrat.Jobs.Reconcile.{
  JobRow, MigrationRow, Tables, unfinished, orphaned_job, interrupted, reconcile_job,
  reconcile_migration, reconcile,
}

job_over :
    (job : JobRow) (b : Bool)
    → unfinished job.status ≡ b
    → unfinished (if b then orphaned_job job else job).status ≡ false
job_over job true q = refl
job_over job false q = q

migration_over :
    (mig : MigrationRow) (b : Bool)
    → unfinished mig.status ≡ b
    → unfinished (if b then interrupted mig else mig).status ≡ false
migration_over mig true q = refl
migration_over mig false q = q

jobs_over :
    (jobs : List JobRow) → All (λ job. unfinished job.status ≡ false) (map reconcile_job jobs)
jobs_over [] = tt
jobs_over (job ∷ jobs) = (job_over job (unfinished job.status) refl, jobs_over jobs)

migrations_over :
    (migs : List MigrationRow)
    → All (λ mig. unfinished mig.status ≡ false) (map reconcile_migration migs)
migrations_over [] = tt
migrations_over (mig ∷ migs) =
    (migration_over mig (unfinished mig.status) refl, migrations_over migs)

-- After the reconciliation no job and no migration is pending or running.
pub reconcile_leaves_none :
    (t : Tables)
    → All (λ job. unfinished job.status ≡ false) (reconcile t).0.jobs
      × All (λ mig. unfinished mig.status ≡ false) (reconcile t).0.migrations
unfolding reconcile
reconcile_leaves_none t = (jobs_over t.jobs, migrations_over t.migrations)

job_same : (job : JobRow) (b : Bool) → b ≡ false → (if b then orphaned_job job else job) ≡ job
job_same job true q = ground arith
job_same job false q = refl

migration_same :
    (mig : MigrationRow) (b : Bool) → b ≡ false → (if b then interrupted mig else mig) ≡ mig
migration_same mig true q = ground arith
migration_same mig false q = refl

left_out :
    (job : JobRow) (rest : List JobRow) (b : Bool)
    → b ≡ false
    → length (elim b [ true ↦ job ∷ rest | false ↦ rest ]) ≡ length rest
left_out job rest true q = ground arith
left_out job rest false q = refl

none_changed :
    (jobs : List JobRow)
    → All (λ job. unfinished job.status ≡ false) jobs
    → map reconcile_job jobs ≡ jobs
none_changed [] over = refl
none_changed (job ∷ jobs) over =
    ap (λ j. j ∷ map reconcile_job jobs) (job_same job (unfinished job.status) over.0)
    ∙ ap (λ rest. job ∷ rest) (none_changed jobs over.1)

none_selected :
    (jobs : List JobRow)
    → All (λ job. unfinished job.status ≡ false) jobs
    → length (select (λ job. unfinished job.status) jobs) ≡ 0
none_selected [] over = refl
none_selected (job ∷ jobs) over =
    left_out job (select (λ j. unfinished j.status) jobs) (unfinished job.status) over.0
    ∙ none_selected jobs over.1

none_interrupted :
    (migs : List MigrationRow)
    → All (λ mig. unfinished mig.status ≡ false) migs
    → map reconcile_migration migs ≡ migs
none_interrupted [] over = refl
none_interrupted (mig ∷ migs) over =
    ap (λ m. m ∷ map reconcile_migration migs) (migration_same mig (unfinished mig.status) over.0)
    ∙ ap (λ rest. mig ∷ rest) (none_interrupted migs over.1)

-- A second reconciliation changes nothing and counts no job: in particular the rows that were over
-- before the first one are left as they are, and the note is added to a job's log only once.
pub reconcile-reconcile : (t : Tables) → reconcile (reconcile t).0 ≡ ((reconcile t).0, 0)
unfolding reconcile
reconcile-reconcile t =
    let same = none_changed (map reconcile_job t.jobs) (jobs_over t.jobs) in
    let none_left = none_selected (map reconcile_job t.jobs) (jobs_over t.jobs) in
    let still =
      none_interrupted (map reconcile_migration t.migrations) (migrations_over t.migrations) in
    ap
      (λ jobs. (
        record {
          jobs = jobs;
          migrations = map reconcile_migration (map reconcile_migration t.migrations);
        },
        length (select (λ job. unfinished job.status) (map reconcile_job t.jobs)),
      ))
      same
    ∙ ap
        (λ migs. (
          record { jobs = map reconcile_job t.jobs; migrations = migs },
          length (select (λ job. unfinished job.status) (map reconcile_job t.jobs)),
        ))
        still
    ∙ ap
        (λ n. (
          record {
            jobs = map reconcile_job t.jobs;
            migrations = map reconcile_migration t.migrations;
          },
          n,
        ))
        none_left
