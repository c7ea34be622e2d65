-- ===== src/Api/Closed.antt =====
-- What a migration's row says when its job is over: theorems about the job of `run_migration`.
use pure_hypervisor_integrat.Prelude.{
  ℕ, zero, suc, String, ◌≡◌, refl, sym, ◌∙◌, subst, Bool, true, false, not, ◌||◌, ◌==◌, Option,
  none, some, maybe, List, [], ◌∷◌, All, select, length, if◌then◌else◌, ◌⊎◌, inl, inr, arith,
}
use pure_hypervisor_integrat.Prelude.Json.{Fields, no_fields}
use pure_hypervisor_integrat.Migrate.Spec.{VmSpec}
use pure_hypervisor_integrat.Migrate.Dicts.{to_dict, from_dict}
use pure_hypervisor_integrat.Migrate.RoundTrip.{from_dict-to_dict}
use pure_hypervisor_integrat.Migrate.World.{
  Result, ok, err, Connectors, Event, logged, slept, called, observed, Trace,
}
use pure_hypervisor_integrat.Migrate.Act.{State}
use pure_hypervisor_integrat.Migrate.Service.{Config, fresh}
use pure_hypervisor_integrat.Migrate.Run.{RunResult, body, run}
use pure_hypervisor_integrat.Migrate.Outcome.{Ended, run-Ended}
use pure_hypervisor_integrat.Api.Migrations.{Migration, change_row, update_migration}
use pure_hypervisor_integrat.Api.Closing.{
  closing_status, closed_row, phased_row, phases_written, closing, migration_job,
}

-- the rows of other migrations
abbrev pub others : String → List Migration → List Migration
others id = select (λ m. not (m.id == id))

module _ (id : String) (change : Migration → Migration)
    (same_id : (m : Migration) → (change m).id ≡ m.id) where
  others-change_row :
      (rows : List Migration) → others id (change_row id change rows) ≡ others id rows
  unfolding change_row
  others-change_row [] = refl
  others-change_row (m ∷ rows) = ground (arith, same_id m, others-change_row rows)

  others-update_migration :
      (takes : ℕ → Bool) (n : ℕ) (rows : List Migration)
      → others id (update_migration takes n id change rows) ≡ others id rows
  unfolding update_migration
  others-update_migration takes zero rows = refl
  others-update_migration takes (suc n) rows =
      ground (arith, others-change_row rows, others-update_migration takes n rows)

-- a write that one of the three tries gets through
update_migration-change_row :
    (takes : ℕ → Bool) (id : String) (change : Migration → Migration) (rows : List Migration)
    → (takes 2 || (takes 1 || takes 0)) ≡ true
    → update_migration takes 3 id change rows ≡ change_row id change rows
unfolding update_migration
update_migration-change_row takes id change rows taken = ground (arith, taken)

others-phases_written :
    (takes : ℕ → ℕ → Bool) (id : String) (past : Trace) (rows : List Migration)
    → others id (phases_written takes id past rows) ≡ others id rows
unfolding phases_written
others-phases_written takes id [] rows = refl
others-phases_written takes id (Event.phase name spec ref ∷ past) rows =
    others-update_migration id (phased_row name spec ref) (λ m. refl) (takes (length past)) 3
      (phases_written takes id past rows)
    ∙ others-phases_written takes id past rows
others-phases_written takes id (logged line ∷ past) rows = others-phases_written takes id past rows
others-phases_written takes id (slept time ∷ past) rows = others-phases_written takes id past rows
others-phases_written takes id (called call outcome ∷ past) rows =
    others-phases_written takes id past rows
others-phases_written takes id (observed side ref state ∷ past) rows =
    others-phases_written takes id past rows

-- what a run whose steps end so comes to
abbrev pub verdict : Result (Unit {0}) → String
verdict (ok a) = "succeeded"
verdict (err e) = "rolled_back"

-- the spec that can be read from a column
abbrev pub Reads : Option VmSpec → Fields → Type 0
Reads none d = d ≡ no_fields
Reads (some v) d = from_dict d ≡ some v

-- a row of another migration, or one that says how the run ended
abbrev pub Closes : String → Result (Unit {0}) → Option VmSpec → Migration → Type 0
Closes id outcome spec m =
    ((m.id == id) ≡ false)
    ⊎ ((m.status ≡ verdict outcome) × (m.phase ≡ verdict outcome) × Reads spec m.spec)

Reads-to_dict : (o : Option VmSpec) → Reads o (maybe o no_fields to_dict)
Reads-to_dict none = refl
Reads-to_dict (some v) = from_dict-to_dict v

module _ (id : String) (outcome : Result (Unit {0})) (r : RunResult) (s : State)
    (status : closing_status r ≡ verdict outcome) (phase : r.phase ≡ verdict outcome) where
  change_row-Closes :
      (rows : List Migration) → All (Closes id outcome s.spec) (change_row id (closed_row r s) rows)
  unfolding change_row
  change_row-Closes [] = tt
  change_row-Closes (m ∷ rows) = (closes (m.id == id) refl, change_row-Closes rows)
    where
      closes :
          (b : Bool)
          → (m.id == id) ≡ b
          → Closes id outcome s.spec (if b then closed_row r s m else m)
      closes true q = inr (status, phase, Reads-to_dict s.spec)
      closes false q = inl q

-- what the rows say after the last write
abbrev pub Closed :
    String → Result (Unit {0}) → Option VmSpec → List Migration → List Migration → Type 0
Closed id outcome spec rows rows' =
    All (Closes id outcome spec) rows' × (others id rows' ≡ others id rows)

module _ (id : String) (takes : ℕ → Bool) (taken : (takes 2 || (takes 1 || takes 0)) ≡ true)
    (rows : List Migration) where
  closing_row :
      (outcome : Result (Unit {0})) (r : RunResult) (s : State)
      → closing_status r ≡ verdict outcome
      → r.phase ≡ verdict outcome
      → Closed id outcome s.spec rows (closing takes id (ok r, s) rows)
  unfolding closing
  closing_row outcome r s status phase = (
    subst (All (Closes id outcome s.spec))
        (sym (update_migration-change_row takes id (closed_row r s) rows taken))
        (change_row-Closes id outcome r s status phase rows),
    others-update_migration id (closed_row r s) (λ m. refl) takes 3 rows,
  )

  closing-Closed :
      (cfg : Config) (b : Result (Unit {0}) × State) (answer : Result RunResult) (s : State)
      → Ended cfg b (answer, s)
      → Closed id b.0 s.spec rows (closing takes id (answer, s) rows)
  unfolding Ended
  closing-Closed cfg (ok a, before) answer s (r, q, success, phase, cleared) =
      subst (λ x. Closed id (ok a) s.spec rows (closing takes id (x, s) rows)) (sym q)
        (closing_row (ok a) r s (rw (success) refl) phase)
  closing-Closed cfg (err e, before) answer s (r, q, failure, phase, said, cleared, made) =
      subst (λ x. Closed id (err e) s.spec rows (closing takes id (x, s) rows)) (sym q)
        (closing_row (err e) r s (rw (failure, phase) refl) phase)

-- if the database takes the last write at one of its three tries: whatever became of the writes before
-- it, the migration's row has the status and the phase "succeeded" if all steps of the run returned, and
-- else "rolled_back", its spec can be read back, and no row of another migration has changed
pub migration_job-Closed :
    (c : Connectors) (cfg : Config) (takes : ℕ → ℕ → Bool) (takes_last : ℕ → Bool)
    → (takes_last 2 || (takes_last 1 || takes_last 0)) ≡ true
    → (id : String) (rows : List Migration)
    → Closed id
        ((body c cfg fresh).0)
        ((run c cfg fresh).1.spec)
        rows
        (migration_job c cfg takes takes_last id rows)
unfolding migration_job
migration_job-Closed c cfg takes takes_last taken id rows =
    let written = phases_written takes id ((run c cfg fresh).1.trace) rows in
    let (closed, same) =
      closing-Closed id takes_last taken written cfg (body c cfg fresh) ((run c cfg fresh).0)
        ((run c cfg fresh).1) (run-Ended c cfg fresh) in
    (closed, same ∙ others-phases_written takes id ((run c cfg fresh).1.trace) rows)
