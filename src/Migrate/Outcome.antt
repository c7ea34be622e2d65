-- ===== src/Migrate/Outcome.antt =====
-- `run` always ends with a result, and what a failure leads to: theorems about
-- `MigrationService.run` and `RollbackStack.unwind`.
mod Cases
mod Undoing
use pure_hypervisor_integrat.Prelude.{
  String, ◌≡◌, refl, sym, ap, ◌∙◌, subst, ◌++◌, true, false, Option, none, some, maybe, List, [],
  ◌∷◌, All, Any, inl, inr,
}
use pure_hypervisor_integrat.Prelude.Text.{fstring, repr}
use pure_hypervisor_integrat.Migrate.Spec.{VmSpec}
use pure_hypervisor_integrat.Migrate.World.{
  logged, source, dest, Error, Result, ok, err, Call, Outcome, Event, called, Trace, Connectors,
  start_vm, delete_vm, stop_vm, cleanup_replication_pgroup,
}
use pure_hypervisor_integrat.Migrate.Act.{
  State, Act, Undo, teardown_dest, restart_source, remove_pgroup, Entry, pure, gets, modify,
  proceed, attempt, attempt_on, happen, emit, perform, judged, outcome, ◌>>=◌, ◌>>◌,
}
use pure_hypervisor_integrat.Migrate.Service.{Config, fresh}
use pure_hypervisor_integrat.Migrate.Preflight.{cleanup_scratch_of, cleanup_scratch}
use pure_hypervisor_integrat.Migrate.Power.{error_line, stop_dest, try_stop, delete_dest, teardown}
use pure_hypervisor_integrat.Migrate.Steps.{run_undo, compensate, unwind_entries, unwind, clear}
use pure_hypervisor_integrat.Migrate.Run.{
  RunResult, failure_text, rolled_back, body, fail_and_roll_back, conclude, run,
}
use pure_hypervisor_integrat.Migrate.Ledger.Rules.{Preserves, Preserves-bind, keep_rules}
use Cases.{bind_case, attempt_case, Steady-emit, Steady-perform}
use Undoing.{Made, undo_call, compensate_returns}

-- `call` has been made in the state's past
Past : Call → State → Type 0
Past call s = Made call s.trace

module _ (call : Call) where
  stays : (s : State) (e : Event) → Past call s → Past call (record s { trace = e ∷ s.trace })
  unfolding Past
  stays s e h = inr h

  drop-Past :
      (rest : List Entry) → Preserves (Past call) (modify (λ s. record s { rollback = rest }))
  unfolding Past
  drop-Past rest = record { after = λ s h. h }

module _ (c : Connectors) (call : Call) where
  teardown-Past : (ref : String) → Preserves (Past call) (teardown c ref)
  unfolding teardown try_stop stop_dest delete_dest
  teardown-Past ref =
      search (keep_rules, Steady-emit (stays call), Steady-perform (stays call)) depth 20

module _ (c : Connectors) (cfg : Config) (call : Call) where
  run_undo-Past : (u : Undo) → Preserves (Past call) (run_undo c cfg u)
  unfolding run_undo
  run_undo-Past (teardown_dest ref) = teardown-Past c call ref
  run_undo-Past restart_source = search (keep_rules, Steady-perform (stays call)) depth 20
  run_undo-Past (remove_pgroup pg) = search (Steady-perform (stays call)) depth 20

  compensate-Past :
      (e : Entry) (failures : List String) → Preserves (Past call) (compensate c cfg e failures)
  unfolding compensate
  compensate-Past e failures = search (keep_rules, run_undo-Past, Steady-emit (stays call)) depth 20

  unwind_entries-Past :
      (entries : List Entry) (failures : List String)
      → Preserves (Past call) (unwind_entries c cfg entries failures)
  unfolding unwind_entries
  unwind_entries-Past [] failures = search keep_rules
  unwind_entries-Past (e ∷ rest) failures = Preserves-bind _ _ (drop-Past call rest) λ _.
      Preserves-bind _ _ (compensate-Past e failures)
        λ failures'. unwind_entries-Past rest failures'

-- what an unwinding of these entries comes to
unfoldable pub Unwound : Config → List Entry → Result (List String) × State → Type 0
Unwound cfg entries r =
    ((failures : List String) × (r.0 ≡ ok failures))
    × (r.1.rollback ≡ [])
    × All (λ e. Made (undo_call cfg e.undo) r.1.trace) entries

module _ (c : Connectors) (cfg : Config) where
  unwind_entries-Unwound :
      (entries : List Entry) (failures : List String) (s : State)
      → s.rollback ≡ entries
      → Unwound cfg entries (unwind_entries c cfg entries failures s)
  unfolding unwind_entries Unwound Past ◌>>=◌
  unwind_entries-Unwound [] failures s q = ((failures, refl), q, tt)
  unwind_entries-Unwound (e ∷ rest) failures s q =
      let s₀ : State = record s { rollback = rest } in
      let (failures', s', returned, made, same) = compensate_returns c cfg e failures s₀ in
      let (ended, empty, others) = unwind_entries-Unwound rest failures' s' same in
      subst (λ r. Unwound cfg (e ∷ rest) (proceed r.0 (λ f. unwind_entries c cfg rest f) r.1))
        (sym returned)
        (
          ended,
          empty,
          ((unwind_entries-Past c cfg (undo_call cfg e.undo) rest failures').after s' made, others),
        )

  pub unwind-Unwound : (s : State) → Unwound cfg s.rollback (unwind c cfg s)
  unfolding unwind ◌>>=◌
  unwind-Unwound s = unwind_entries-Unwound s.rollback [] s refl

-- what the end of the `try` block leads to
unfoldable pub Ended : Config → Result (Unit {0}) × State → Result RunResult × State → Type 0
Ended cfg (ok a, s) (answer, s') =
    (r : RunResult) × (answer ≡ ok r)
    × (r.success ≡ true)
    × (r.phase ≡ "succeeded")
    × (s'.rollback ≡ [])
Ended cfg (err e, s) (answer, s') =
    (r : RunResult) × (answer ≡ ok r)
    × (r.success ≡ false)
    × (r.phase ≡ "rolled_back")
    × (r.message ≡ fstring ("migration failed and was rolled back: " ∷ failure_text e ∷ []))
    × (s'.rollback ≡ [])
    × All (λ entry. Made (undo_call cfg entry.undo) s'.trace) s.rollback

module _ (c : Connectors) (cfg : Config) where
  cleanup_returns :
      (v : Option VmSpec) (s : State) → (s' : State) × (cleanup_scratch_of c cfg v s ≡ (ok tt, s'))
  unfolding cleanup_scratch_of emit happen
  cleanup_returns none s = (s, refl)
  cleanup_returns (some v) s =
      attempt_case _ _ s (λ r. (s' : State) × (r ≡ (ok tt, s'))) (λ a s' q. (s', refl))
        (λ e s' q. (_, refl))

  module _ (P : State → Type 0)
      (step : (s : State) (e : Event) → P s → P (record s { trace = e ∷ s.trace })) where
    cleanup_scratch_of-Preserves : (v : Option VmSpec) → Preserves P (cleanup_scratch_of c cfg v)
    unfolding cleanup_scratch_of
    cleanup_scratch_of-Preserves none = search keep_rules
    cleanup_scratch_of-Preserves (some v) =
        search (keep_rules, Steady-emit step, Steady-perform step) depth 20

  more :
      (st : List Entry) (s : State) (e : Event)
      → All (λ entry. Made (undo_call cfg entry.undo) s.trace) st
      → All (λ entry. Made (undo_call cfg entry.undo) (e ∷ s.trace)) st
  more [] s e made = tt
  more (entry ∷ st) s e made = (inr made.0, more st s e made.1)

  cleaned_ends :
      (e : Error) (failures : List String) (s s' : State)
      → s'.rollback ≡ []
      → All (λ entry. Made (undo_call cfg entry.undo) s'.trace) s.rollback
      → Ended cfg (err e, s) (rolled_back c cfg e failures s')
  unfolding rolled_back Ended cleanup_scratch ◌>>=◌
  cleaned_ends e failures s s' empty made =
      let (s₃, cleaned) = cleanup_returns s'.spec s' in
      let Undone : State → Type 0 =
        λ t. All (λ entry. Made (undo_call cfg entry.undo) t.trace) s.rollback in
      let empty₃ : s₃.rollback ≡ [] =
        subst (λ r. r.1.rollback ≡ []) cleaned
          ((cleanup_scratch_of-Preserves (λ t. t.rollback ≡ []) (λ t e h. h) s'.spec).after s'
            empty) in
      let made₃ : Undone s₃ =
        subst (λ r. Undone r.1) cleaned
          ((cleanup_scratch_of-Preserves Undone (more s.rollback) s'.spec).after s' made) in
      rw cleaned (_, refl, refl, refl, refl, empty₃, made₃)

  fail_ends : (e : Error) (s : State) → Ended cfg (err e, s) (fail_and_roll_back c cfg e s)
  unfolding fail_and_roll_back Unwound emit happen ◌>>=◌
  fail_ends e s =
      let s₁ : State = record s {
        trace = logged (fstring ("[migration] FAILED: " ∷ failure_text e ∷ [])) ∷ s.trace;
      } in
      let ((failures, q), empty, made) = unwind-Unwound c cfg s₁ in
      let s₂ = (unwind c cfg s₁).1 in
      subst (λ x. Ended cfg (err e, s) (proceed x (rolled_back c cfg e) s₂)) (sym q)
        (cleaned_ends e failures s s₂ empty made)

  conclude_ends : (s : State) → Ended cfg (ok tt, s) (conclude c cfg s)
  unfolding conclude cleanup_scratch clear Ended ◌>>=◌
  conclude_ends s =
      let (s', cleaned) = cleanup_returns s.spec s in rw cleaned (_, refl, refl, refl, refl)

  -- A run always returns a result and leaves no compensation waiting: a success in the phase
  -- "succeeded" if all its steps return, and else the failure "migration failed and was rolled back",
  -- with the call of every compensation that was waiting made.
  pub run-Ended : (s : State) → Ended cfg (body c cfg s) (run c cfg s)
  unfolding run attempt ◌>>=◌
  run-Ended s = ended (body c cfg s)
    where
      tried : Result (Unit {0}) × State → Result (Option Error) × State
      tried r =
          attempt_on (proceed r.0 (λ _. pure {A = Option Error} none) r.1).0
            (λ exc. pure (some exc)) (proceed r.0 (λ _. pure {A = Option Error} none) r.1).1

      ended :
          (r : Result (Unit {0}) × State)
          → Ended cfg r (
              proceed {A = Option Error} {B = RunResult}
                (tried r).0
                (λ failed. maybe failed (conclude c cfg) (fail_and_roll_back c cfg))
                (tried r).1)
      ended (ok a, s') = conclude_ends s'
      ended (err e, s') = fail_ends e s'
