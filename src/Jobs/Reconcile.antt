-- ===== src/Jobs/Reconcile.antt =====
-- `reconcile_orphaned_jobs` of backend/phif/jobs/reconcile.py, over the rows of the two tables.
use pure_hypervisor_integrat.Prelude.{
  ℕ, String, Bool, List, [], ◌∷◌, map, select, length, contains, if◌then◌else◌, Option, text_or,
  some,
}
use pure_hypervisor_integrat.Prelude.Text.{fstring}

-- the columns of a job that the reconciliation reads or writes
pub record JobRow : Type 0 where
  pub job_id : String
  pub status : String
  pub logs : Option String

-- the same of a migration
pub record MigrationRow : Type 0 where
  pub migration_id : String
  pub status : String
  pub phase : String

-- `_ORPHAN_NOTE`
abbrev pub orphan_note : String
orphan_note = "\n=== failed: interrupted by a backend restart (orphaned job) ==="

-- `status.in_(("running", "pending"))`
abbrev pub unfinished : String → Bool
unfinished status = contains status ("running" ∷ "pending" ∷ [])

-- the body of the loop over the jobs
abbrev pub orphaned_job : JobRow → JobRow
orphaned_job job = record job {
  status = "failed";
  logs = some (fstring (text_or job.logs "" ∷ orphan_note ∷ []));
}

-- the body of the loop over the migrations
abbrev pub interrupted : MigrationRow → MigrationRow
interrupted mig = record mig { status = "failed"; phase = "interrupted" }

-- the two tables
pub record Tables : Type 0 where
  pub jobs : List JobRow
  pub migrations : List MigrationRow

abbrev pub reconcile_job : JobRow → JobRow
reconcile_job job = if unfinished job.status then orphaned_job job else job

abbrev pub reconcile_migration : MigrationRow → MigrationRow
reconcile_migration mig = if unfinished mig.status then interrupted mig else mig

-- `reconcile_orphaned_jobs`: the tables after it, and the number of jobs that it returns
unfoldable pub reconcile : Tables → Tables × ℕ
reconcile t = (
  record { jobs = map reconcile_job t.jobs; migrations = map reconcile_migration t.migrations },
  length (select (λ job. unfinished job.status) t.jobs),
)
