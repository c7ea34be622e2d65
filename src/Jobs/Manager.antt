-- ===== src/Jobs/Manager.antt =====
-- `JobManager._run`, `_finalize` and `_strip_secrets` of backend/phif/jobs/manager.py. The operation is
-- a parameter: the lines it emits and how it ends. So are the database's answers: to the write that
-- marks the job as running, and to that of the job's final row, which raises for a result that it
-- cannot store.
use pure_hypervisor_integrat.Prelude.{
  String, Bool, false, if◌then◌else◌, Option, none, some, List, [], ◌∷◌, ◌++◌, any,
}
use pure_hypervisor_integrat.Prelude.Text.{fstring, join, lower, includes}

-- an `OpResult`, without its data and artifacts
pub record OpResult : Type 0 where
  pub success : Bool
  pub message : String

-- how the operation ends: with a result, or with an exception and its text
pub data Ending : Type 0 where
  returned : OpResult → Ending
  raised : String → Ending

-- the job's row after `_finalize`
pub record FinalRow : Type 0 where
  pub status : String
  pub result : OpResult
  pub logs : String

-- what a run of `_run` leaves: the lines that the subscribers get, the last row that was written, and
-- the exception that leaves it, if any
pub record Ran : Type 0 where
  pub published : List String
  pub row : Option FinalRow
  pub escaped : Option String

abbrev pub end_line : String
end_line = "__END__"

-- the status of a result
abbrev pub status_word : OpResult → String
status_word r = if r.success then "succeeded" else "failed"

abbrev pub result_line : OpResult → String
result_line r = fstring ("=== " ∷ status_word r ∷ ": " ∷ r.message ∷ " ===" ∷ [])

abbrev pub failed_line : String → String
failed_line exc = fstring ("=== failed: " ∷ exc ∷ " ===" ∷ [])

-- `OpResult.fail(str(exc))`
abbrev pub failure : String → OpResult
failure exc = record { success = false; message = exc }

-- the `values` of `_finalize`
abbrev pub final_row : String → OpResult → List String → FinalRow
final_row status r buffer = record { status = status; result = r; logs = join "\n" buffer }

-- the end of `_run` after a write of the final row, by the exception that the write raised, if any
abbrev pub written : List String → FinalRow → Option String → Ran
written lines row none = record {
  published = lines ++ (end_line ∷ []);
  row = some row;
  escaped = none;
}
written lines row (some e) = record {
  published = lines ++ (end_line ∷ []);
  row = none;
  escaped = some e;
}

module _ (store : FinalRow → Option String) where
  -- the handler, with the lines so far
  unfoldable pub failed : List String → String → Ran
  failed buffer exc =
      let lines = buffer ++ (failed_line exc ∷ []) in
      let row = final_row "failed" (failure exc) lines in written lines row (store row)

  -- what follows the first write: an exception of it leads to the handler
  unfoldable pub stored : List String → FinalRow → Option String → Ran
  unfolding failed
  stored lines row none = written lines row none
  stored lines row (some e) = failed lines e

  -- the `try` block from the end of the operation on, with the lines so far
  unfoldable pub ending : List String → Ending → Ran
  unfolding failed stored
  ending buffer (raised exc) = failed buffer exc
  ending buffer (returned r) =
      let lines = buffer ++ (result_line r ∷ []) in
      let row = final_row (status_word r) r lines in stored lines row (store row)

  -- `_run`, past the semaphore: `_set_status(job_id, "running")`, by the exception that it raises, if
  -- any, and what follows
  unfoldable pub run_job : Option String → String → List String → Ending → Ran
  unfolding ending
  run_job (some e) job_id emitted end = record { published = []; row = none; escaped = some e }
  run_job none job_id emitted end =
      ending (fstring ("=== job " ∷ job_id ∷ " started ===" ∷ []) ∷ emitted) end

-- whether a parameter's name tells that it is secret
unfoldable pub is_secret : String → Bool
unfolding includes lower
is_secret k = any (λ s. includes (lower k) s) ("token" ∷ "password" ∷ "secret" ∷ "key" ∷ [])

-- `_strip_secrets`, with `mask` for the value "***"
unfoldable pub strip_secrets : {V : Type 0} → V → List (String × V) → List (String × V)
strip_secrets mask [] = []
strip_secrets mask ((k, v) ∷ params) =
    (k, if is_secret k then mask else v) ∷ strip_secrets mask params
