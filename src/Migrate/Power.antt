-- ===== src/Migrate/Power.antt =====
-- The steps of migrate/service.py that switch the VMs: `_quiesce_source`, `_teardown_dest` and
-- `_power_on_dest`.
use pure_hypervisor_integrat.Prelude.{
  ℕ, zero, suc, ◌+◌, String, Bool, true, false, not, [], ◌∷◌, ◌==◌, ◌||◌, if◌then◌else◌, flag_or,
  number_or, maybe, eqb,
}
use pure_hypervisor_integrat.Prelude.Text.{fstring, str}
use pure_hypervisor_integrat.Migrate.World.{
  source, dest, Error, migration_error, other_error, Connectors, slept, stop_vm, start_vm,
  delete_vm,
}
use pure_hypervisor_integrat.Migrate.Act.{
  Act, restart_source, pure, raise, gets, modify, require, attempt, happen, emit, perform, judged,
  push, ◌>>=◌, ◌>>◌,
}
use pure_hypervisor_integrat.Migrate.Service.{
  Config, is_move, dry_run, phase, skip, is_mock, the_dest_ref, observe, await_power,
}

-- f"{type(exc).__name__}: {exc}"
abbrev pub error_line : Error → String
error_line (migration_error t) = fstring ("MigrationError: " ∷ t ∷ [])
error_line (other_error name t) = fstring (name ∷ ": " ∷ t ∷ [])

-- `self._opt("shutdown_source", False)`
unfoldable pub shutdown_source : Config → Bool
shutdown_source cfg = flag_or cfg.options.shutdown_source false

module _ (c : Connectors) where
  -- the stop of the destination VM, as a call
  unfoldable pub stop_dest : String → Act (Unit {0})
  stop_dest ref = do
    _ ← perform (stop_vm dest ref true) judged (λ t. c.reply t (stop_vm dest ref true))
    pure tt

  -- the stop, best-effort
  unfoldable pub try_stop : String → Act (Unit {0})
  try_stop ref =
      attempt (stop_dest ref) (λ exc.
        emit (fstring ("[rollback] stop " ∷ ref ∷ " before delete: " ∷ error_line exc ∷ [])))

  -- the deletion with its disks; what `delete_vm` replies is not looked at
  unfoldable pub delete_dest : String → Act (Unit {0})
  delete_dest ref = do
    _ ← perform (delete_vm dest ref false) judged (λ t. c.reply t (delete_vm dest ref false))
    pure tt

  -- `_teardown_dest`
  unfoldable pub teardown : String → Act (Unit {0})
  teardown ref = do try_stop ref; delete_dest ref

module _ (c : Connectors) (cfg : Config) where
  -- the source is running: stop it, and restart it if the migration fails later
  unfoldable pub stop_source : Act (Unit {0})
  stop_source = do
    skipped ← skip cfg (fstring ("shut down source VM " ∷ cfg.vm_ref ∷ []))
    if skipped then pure tt else do
      let call = stop_vm source cfg.vm_ref (flag_or cfg.options.force_stop false)
      r ← perform call judged (λ t. c.reply t call)
      require r.success
          (migration_error (fstring ("failed to stop source for a clean copy: " ∷ r.message ∷ [])))
      push "restart source VM" restart_source
      await_power c cfg source cfg.vm_ref "stopped"
      emit "[copy] source shut down; it will be left shut down"

  -- `_quiesce_source(force=self.mode == "move")`
  unfoldable pub quiesce_source : Act (Unit {0})
  unfolding stop_source
  quiesce_source =
      if is_move cfg || shutdown_source cfg
      then (do
        phase "shut down source for a clean copy"
        state ← observe c source cfg.vm_ref "unknown"
        modify (λ s. record s { source_was_running = not (state == "stopped") })
        if state == "stopped" then emit "[copy] source already stopped" else stop_source)
      else pure tt

  -- `_should_power_on`
  unfoldable pub should_power_on : Bool → Bool
  should_power_on was_running =
      maybe cfg.options.power_on (if is_move cfg then was_running else false) (λ b. b)

  -- the inner loop of `_power_on_dest`: whether the VM was seen running
  unfoldable pub see_running : String → ℕ → ℕ → Act Bool
  see_running ref delay zero = pure false
  see_running ref delay (suc left) = do
    state ← observe c dest ref ""
    let later = do happen (slept delay); see_running ref delay left
    if state == "running" then pure true else later

  -- the outer loop, with `i` attempts behind it; `attempts` is their number
  unfoldable pub start_until_running : String → ℕ → ℕ → ℕ → ℕ → ℕ → Act (Unit {0})
  start_until_running ref polls delay attempts i zero = raise (
      migration_error (
        fstring (
          "destination VM "
          ∷ ref
          ∷ " did not reach running after "
          ∷ str attempts
          ∷ " start attempts (storage device may not have assembled)"
          ∷ [])))
  start_until_running ref polls delay attempts i (suc left) = do
    r ← perform (start_vm dest ref) judged (λ t. c.reply t (start_vm dest ref))
    if r.success then pure tt else emit (fstring ("[dest] start returned: " ∷ r.message ∷ []))
    running ← see_running ref delay polls
    let again = do
      emit (
          fstring (
            "[dest] not running after start attempt "
            ∷ str (i + 1)
            ∷ "/"
            ∷ str attempts
            ∷ "; the storage device may still be assembling on the host — retrying"
            ∷ []))
      start_until_running ref polls delay attempts (i + 1) left
    let done =
        if eqb i 0
        then pure tt
        else emit (fstring ("[dest] reached running on start attempt " ∷ str (i + 1) ∷ []))
    if running then done else again

  -- the power-on itself
  unfoldable pub power_on : String → Act (Unit {0})
  power_on ref =
      if dry_run cfg
      then emit (
          fstring (
            "[dry-run] would power on destination VM " ∷ ref ∷ " and wait for it to reach running"
            ∷ []))
      else if is_mock c dest
      then (do
        _ ← perform (start_vm dest ref) judged (λ t. c.reply t (start_vm dest ref))
        emit (fstring ("[mock] skipping power-on wait for " ∷ ref ∷ [])))
      else start_until_running ref (number_or cfg.options.start_poll_attempts 8)
          (number_or cfg.options.start_poll_delay 3000) (number_or cfg.options.start_attempts 6) 0
          (number_or cfg.options.start_attempts 6)

  -- `_power_on_dest`
  unfoldable pub power_on_dest : Act (Unit {0})
  unfolding power_on
  power_on_dest = do
    ref ← the_dest_ref
    was_running ← gets (λ s. s.source_was_running)
    if should_power_on was_running
        then (do
          modify (λ s. record s { powered_on = true })
          phase "power on destination VM"
          power_on ref)
        else (do
          phase "leave destination powered off"
          emit "[dest] leaving destination VM powered off (per power-state option)"
          modify (λ s. record s { powered_on = false }))
