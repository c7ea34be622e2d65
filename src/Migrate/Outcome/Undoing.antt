-- ===== src/Migrate/Outcome/Undoing.antt =====
-- One compensation of `RollbackStack.unwind`: what it calls, and that it always returns.
use pure_hypervisor_integrat.Prelude.{
  String, ◌≡◌, refl, ◌∙◌, subst, ◌++◌, false, List, [], ◌∷◌, Any, inl, inr,
}
use pure_hypervisor_integrat.Prelude.Text.{fstring, repr}
use pure_hypervisor_integrat.Migrate.World.{
  logged, source, dest, Error, Result, ok, err, Call, Outcome, called, Trace, Connectors, start_vm,
  delete_vm, cleanup_replication_pgroup,
}
use pure_hypervisor_integrat.Migrate.Act.{
  State, Undo, teardown_dest, restart_source, remove_pgroup, Entry, pure, proceed, attempt,
  attempt_on, happen, emit, perform, outcome, ◌>>=◌, ◌>>◌,
}
use pure_hypervisor_integrat.Migrate.Service.{Config}
use pure_hypervisor_integrat.Migrate.Power.{error_line, stop_dest, try_stop, delete_dest, teardown}
use pure_hypervisor_integrat.Migrate.Steps.{run_undo, compensate}
use pure_hypervisor_integrat.Migrate.Ledger.Rules.{Preserves, keep_rules}
use pure_hypervisor_integrat.Migrate.Outcome.Cases.{bind_case, attempt_case, Steady-perform}

-- the call has been made, with some outcome
abbrev pub Made : Call → Trace → Type 0
Made call = Any (λ e. (o : Outcome) × (e ≡ called call o))

-- the call that a compensation comes down to
abbrev pub undo_call : Config → Undo → Call
undo_call cfg (teardown_dest ref) = delete_vm dest ref false
undo_call cfg restart_source = start_vm source cfg.vm_ref
undo_call cfg (remove_pgroup pg) = cleanup_replication_pgroup pg

module _ (c : Connectors) (cfg : Config) where
  -- a call is on the record, however it ends, and the stack is as it was
  perform-Made :
      {A : Type 0} (call : Call) (judge : A → Outcome) (f : Trace → Result A) (s : State)
      (r : Result A × State)
      → perform call judge f s ≡ r
      → Made call r.1.trace × (r.1.rollback ≡ s.rollback)
  unfolding perform
  perform-Made call judge f s r q =
      subst (λ r. Made call r.1.trace × (r.1.rollback ≡ s.rollback)) q
        (inl (outcome judge (f s.trace), refl), refl)

  stop_dest-Preserves :
      (ref : String) (st : List Entry) → Preserves (λ s. s.rollback ≡ st) (stop_dest c ref)
  unfolding stop_dest
  stop_dest-Preserves ref st =
      search (keep_rules, Steady-perform {P = λ s. s.rollback ≡ st} (λ s e h. h))

  try_stop_returns :
      (ref : String) (s : State)
      → (s' : State) × (try_stop c ref s ≡ (ok tt, s')) × (s'.rollback ≡ s.rollback)
  unfolding try_stop emit happen
  try_stop_returns ref s =
      attempt_case _ _ s (λ r. (s' : State) × (r ≡ (ok tt, s')) × (s'.rollback ≡ s.rollback))
        (λ a s' q. (s', refl, kept (ok a, s') q)) (λ e s' q. (_, refl, kept (err e, s') q))
    where
      kept : (r : Result (Unit {0}) × State) → stop_dest c ref s ≡ r → r.1.rollback ≡ s.rollback
      kept r q =
          subst (λ r. r.1.rollback ≡ s.rollback) q
            ((stop_dest-Preserves ref s.rollback).after s refl)

  delete_dest-Made :
      (ref : String) (s : State)
      → Made (delete_vm dest ref false) (delete_dest c ref s).1.trace
        × ((delete_dest c ref s).1.rollback ≡ s.rollback)
  unfolding delete_dest
  delete_dest-Made ref s =
      bind_case _ _ s (λ r. Made (delete_vm dest ref false) r.1.trace × (r.1.rollback ≡ s.rollback))
        (λ a s' q. perform-Made _ _ _ s (ok a, s') q) (λ e s' q. perform-Made _ _ _ s (err e, s') q)

  teardown-Made :
      (ref : String) (s : State)
      → Made (delete_vm dest ref false) (teardown c ref s).1.trace
        × ((teardown c ref s).1.rollback ≡ s.rollback)
  unfolding teardown ◌>>=◌
  teardown-Made ref s =
      let (s', stopped, same) = try_stop_returns ref s in
      let (made, kept) = delete_dest-Made ref s' in rw stopped (made, kept ∙ same)

  undo-Made :
      (u : Undo) (s : State)
      → Made (undo_call cfg u) (run_undo c cfg u s).1.trace
        × ((run_undo c cfg u s).1.rollback ≡ s.rollback)
  unfolding run_undo
  undo-Made (teardown_dest ref) s = teardown-Made ref s
  undo-Made restart_source s =
      bind_case _ _ s
        (λ r. Made (start_vm source cfg.vm_ref) r.1.trace × (r.1.rollback ≡ s.rollback))
        (λ a s' q. perform-Made _ _ _ s (ok a, s') q) (λ e s' q. perform-Made _ _ _ s (err e, s') q)
  undo-Made (remove_pgroup pg) s = perform-Made _ _ _ s _ refl

-- An action that is tried, with a line for the log if it raises, returns.
settled :
    (call : Call) (label : String) (line : Error → String) (failures : List String)
    (st : List Entry) (r : Result (Unit {0}) × State)
    → Made call r.1.trace
    → r.1.rollback ≡ st
    → (failures' : List String) × (s' : State) × (attempt_on
          (proceed r.0 (λ _. pure failures) r.1).0
          (λ exc. do emit (line exc); pure (failures ++ (label ∷ [])))
          (proceed r.0 (λ _. pure failures) r.1).1
        ≡ (ok failures', s'))
      × Made call s'.trace
      × (s'.rollback ≡ st)
unfolding emit happen ◌>>=◌
settled call label line failures st (ok a, s) made same = (failures, s, refl, made, same)
settled call label line failures st (err e, s) made same =
    (failures ++ (label ∷ []), _, refl, inr made, same)

abbrev compensation_line : String → Error → String
compensation_line label exc =
    fstring ("[rollback] WARNING: compensation " ∷ repr label ∷ " failed: " ∷ error_line exc ∷ [])

module _ (c : Connectors) (cfg : Config) where
  -- One compensation returns, whatever it meets; its call has been made.
  pub compensate_returns :
      (e : Entry) (failures : List String) (s : State)
      → (failures' : List String) × (s' : State) × (compensate c cfg e failures s
          ≡ (ok failures', s'))
        × Made (undo_call cfg e.undo) s'.trace
        × (s'.rollback ≡ s.rollback)
  unfolding compensate emit happen attempt ◌>>=◌
  compensate_returns e failures s =
      let s₀ : State = record s {
        trace = logged (fstring ("[rollback] " ∷ e.label ∷ [])) ∷ s.trace;
      } in
      let made = undo-Made c cfg e.undo s₀ in
      settled (undo_call cfg e.undo) e.label (compensation_line e.label) failures s.rollback
        (run_undo c cfg e.undo s₀) made.0 made.1
