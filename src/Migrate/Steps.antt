-- ===== src/Migrate/Steps.antt =====
-- `RollbackStack` of migrate/steps.py: the last pushed compensation is run first, and one that fails
-- does not stop the others. A compensation fails when it raises.
use pure_hypervisor_integrat.Prelude.{String, List, [], ◌∷◌, ◌++◌, map}
use pure_hypervisor_integrat.Prelude.Text.{fstring, repr}
use pure_hypervisor_integrat.Migrate.World.{
  source, Connectors, start_vm, cleanup_replication_pgroup,
}
use pure_hypervisor_integrat.Migrate.Act.{
  Undo, teardown_dest, restart_source, remove_pgroup, Entry, State, Act, pure, gets, modify,
  attempt, emit, perform, judged, returned, ◌>>=◌, ◌>>◌,
}
use pure_hypervisor_integrat.Migrate.Service.{Config}
use pure_hypervisor_integrat.Migrate.Power.{error_line, teardown}

-- `pending`
unfoldable pub pending : State → List String
pending s = map (λ e. e.label) s.rollback

-- `clear`
unfoldable pub clear : Act (Unit {0})
clear = modify (λ s. record s { rollback = [] })

module _ (c : Connectors) (cfg : Config) where
  -- what a compensation does; the replies of `start_vm` and of `delete_vm` are not looked at
  unfoldable pub run_undo : Undo → Act (Unit {0})
  run_undo (teardown_dest ref) = teardown c ref
  run_undo restart_source = do
    _ ← perform (start_vm source cfg.vm_ref) judged (λ t. c.reply t (start_vm source cfg.vm_ref))
    pure tt
  run_undo (remove_pgroup pg) =
      perform (cleanup_replication_pgroup pg) returned
        (λ t. c.effect t (cleanup_replication_pgroup pg))

  -- the body of the loop of `unwind`, after the pop: the labels of the failures so far
  unfoldable pub compensate : Entry → List String → Act (List String)
  unfolding run_undo
  compensate e failures = do
    emit (fstring ("[rollback] " ∷ e.label ∷ []))
    attempt (do run_undo e.undo; pure failures)
        (λ exc. do
          emit (
              fstring (
                "[rollback] WARNING: compensation "
                ∷ repr e.label
                ∷ " failed: "
                ∷ error_line exc
                ∷ []))
          pure (failures ++ (e.label ∷ [])))

  -- `while self._entries`, over the entries of the stack, the last pushed first
  unfoldable pub unwind_entries : List Entry → List String → Act (List String)
  unwind_entries [] failures = pure failures
  unwind_entries (e ∷ rest) failures = do
    modify (λ s. record s { rollback = rest })
    failures' ← compensate e failures
    unwind_entries rest failures'

  -- `unwind`
  unfoldable pub unwind : Act (List String)
  unwind = do entries ← gets (λ s. s.rollback); unwind_entries entries []
