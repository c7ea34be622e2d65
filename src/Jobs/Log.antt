-- ===== src/Jobs/Log.antt =====
-- What a job leaves: theorems about `JobManager._run` and `_strip_secrets`.
use pure_hypervisor_integrat.Prelude.{
  String, ◌≡◌, refl, Bool, true, false, Option, none, some, List, [], ◌∷◌, ◌++◌, if◌then◌else◌,
  arith,
}
use pure_hypervisor_integrat.Prelude.Text.{fstring, join}
use pure_hypervisor_integrat.Jobs.Manager.{
  Ending, returned, raised, FinalRow, Ran, end_line, status_word, result_line, failed_line, failure,
  final_row, stored, failed, ending, run_job, is_secret, strip_secrets,
}

-- the row that was written, if any, has these lines as its log and the status that its result tells
abbrev pub Reports : List String → Option FinalRow → Type 0
Reports lines none = Unit
Reports lines (some row) = (row.logs ≡ join "\n" lines) × (row.status ≡ status_word row.result)

-- the subscribers got some lines and then the end line, and the row reports these lines
abbrev pub Logged : Ran → Type 0
Logged ran =
    (lines : List String) × (ran.published ≡ lines ++ (end_line ∷ [])) × Reports lines ran.row

-- the same for a job that could be marked as running, and the end of one that could not
abbrev pub Begun : Option String → Ran → Type 0
Begun none ran = Logged ran
Begun (some e) ran = (ran.published ≡ []) × (ran.row ≡ none) × (ran.escaped ≡ some e)

module _ (store : FinalRow → Option String) where
  module _ (stores_failures : (row : FinalRow) → row.status ≡ "failed" → store row ≡ none) where
    failed_written :
        (buffer : List String) (exc : String) → (failed store buffer exc).escaped ≡ none
    unfolding failed
    failed_written buffer exc =
        rw
          (stores_failures (final_row "failed" (failure exc) (buffer ++ (failed_line exc ∷ [])))
            refl)
          refl

    stored_written :
        (lines : List String) (row : FinalRow) (o : Option String)
        → (stored store lines row o).escaped ≡ none
    unfolding stored
    stored_written lines row none = refl
    stored_written lines row (some e) = failed_written lines e

    ending_written :
        (buffer : List String) (end : Ending) → (ending store buffer end).escaped ≡ none
    unfolding ending
    ending_written buffer (raised exc) = failed_written buffer exc
    ending_written buffer (returned r) =
        let lines = buffer ++ (result_line r ∷ []) in
        let row = final_row (status_word r) r lines in stored_written lines row (store row)

    -- If the database stores the rows of failures, the only exception that leaves a job is that of
    -- marking it as running, whatever its operation does and also when the row of its result cannot
    -- be stored.
    pub run_job-escaped :
        (marking : Option String) (job_id : String) (emitted : List String) (end : Ending)
        → (run_job store marking job_id emitted end).escaped ≡ marking
    unfolding run_job
    run_job-escaped none job_id emitted end =
        ending_written (fstring ("=== job " ∷ job_id ∷ " started ===" ∷ []) ∷ emitted) end
    run_job-escaped (some e) job_id emitted end = refl

masked : {V : Type 0} (mask v : V) (b : Bool) → b ≡ true → (if b then mask else v) ≡ mask
masked mask v true q = refl
masked mask v false q = ground arith

kept : {V : Type 0} (mask v : V) (b : Bool) → b ≡ false → (if b then mask else v) ≡ v
kept mask v true q = ground arith
kept mask v false q = refl

-- the parameters, in their order, with each value that is secret replaced and each other one kept
abbrev pub Redacted : {V : Type 0} → V → List (String × V) → List (String × V) → Type 0
Redacted mask [] [] = Unit
Redacted mask [] (p ∷ ps) = ⊥
Redacted mask (p ∷ ps) [] = ⊥
Redacted mask ((k, v) ∷ ps) ((j, w) ∷ qs) =
    (j ≡ k) × (is_secret k ≡ true → w ≡ mask) × (is_secret k ≡ false → w ≡ v) × Redacted mask ps qs

-- `_strip_secrets` keeps the names of a job's parameters and their order, puts the mask for every value
-- whose name contains "token", "password", "secret" or "key" in any case, and keeps all other values.
pub strip_secrets-Redacted :
    {V : Type 0} (mask : V) (params : List (String × V))
    → Redacted mask params (strip_secrets mask params)
unfolding strip_secrets
strip_secrets-Redacted mask [] = tt
strip_secrets-Redacted mask ((k, v) ∷ params) = (
  refl,
  masked mask v (is_secret k),
  kept mask v (is_secret k),
  strip_secrets-Redacted mask params,
)
