-- ===== src/Jobs/Trial.antt =====
-- Jobs and tables of jobs, and the theorems at them.
use pure_hypervisor_integrat.Prelude.{
  String, ◌≡◌, refl, true, Option, none, some, [], ◌∷◌, if◌then◌else◌, ◌==◌,
}
use pure_hypervisor_integrat.Jobs.Manager.{returned, FinalRow, run_job}
use pure_hypervisor_integrat.Jobs.Log.{run_job-escaped}
use pure_hypervisor_integrat.Jobs.Reconcile.{Tables}

abbrev before_restart : Tables
before_restart = record {
  jobs =
      record { job_id = "j1"; status = "running"; logs = none }
      ∷ record { job_id = "j2"; status = "succeeded"; logs = some "ok" }
      ∷ [];
  migrations = record { migration_id = "m1"; status = "pending"; phase = "pending" } ∷ [];
}

-- a database that cannot store the rows of successes
abbrev only_failures : FinalRow → Option String
only_failures row = if row.status == "failed" then none else some "not serializable"

only_failures_stores : (row : FinalRow) → row.status ≡ "failed" → only_failures row ≡ none
only_failures_stores row q = rw q refl

run_job-escaped_example :
    (run_job only_failures none "j1"
      ("working" ∷ [])
      (returned (record { success = true; message = "done" }))).escaped
    ≡ none
run_job-escaped_example =
    run_job-escaped only_failures only_failures_stores none "j1" ("working" ∷ [])
      (returned (record { success = true; message = "done" }))
