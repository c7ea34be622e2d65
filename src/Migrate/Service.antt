-- ===== src/Migrate/Service.antt =====
-- `MigrationService` of migrate/service.py: what its constructor keeps, and its helpers.
use pure_hypervisor_integrat.Prelude.{
  ℕ, zero, suc, String, Bool, true, false, Option, none, some, List, [], ◌∷◌, ◌==◌, ◌&&◌, ◌||◌, max,
  if◌then◌else◌, text_or, flag_or, number_or, ltb,
}
use pure_hypervisor_integrat.Prelude.Text.{fstring, lower, repr}
use pure_hypervisor_integrat.Migrate.Spec.{VmSpec}
use pure_hypervisor_integrat.Migrate.World.{
  Side, Error, migration_error, other_error, Result, ok, err, Event, called, observed, slept,
  power_state, succeeded, raised, Connectors,
}
use pure_hypervisor_integrat.Migrate.Act.{State, Act, pure, raise, gets, happen, emit, ◌>>=◌, ◌>>◌}

-- the keys that the orchestrator reads of its `options`; times are in milliseconds
pub record Options : Type 0 where
  pub mode : Option String
  pub cross_array : Option Bool
  pub dry_run : Option Bool
  pub convert_to_vmfs : Option Bool
  pub shutdown_source : Option Bool
  pub force_stop : Option Bool
  pub allow_array_connect : Option Bool
  pub power_on : Option Bool
  pub dest_cluster : Option String
  pub dest_storage : Option String
  pub vmfs_datastore : Option String
  pub poll_attempts : Option ℕ
  pub poll_delay : Option ℕ
  pub start_attempts : Option ℕ
  pub start_poll_attempts : Option ℕ
  pub start_poll_delay : Option ℕ
  pub replication_settle : Option ℕ

-- the fields of `MigrationService` that never change
pub record Config : Type 0 where
  pub vm_ref : String
  pub network_map : List (String × String)
  pub options : Options

-- `self.mode`, `self.cross_array`, `self.dry_run`
unfoldable pub mode : Config → String
mode cfg = lower (text_or cfg.options.mode "move")

unfoldable pub is_move : Config → Bool
is_move cfg = mode cfg == "move"

unfoldable pub cross_array : Config → Bool
cross_array cfg = flag_or cfg.options.cross_array false

unfoldable pub dry_run : Config → Bool
dry_run cfg = flag_or cfg.options.dry_run false

-- the constructor, with a fresh rollback stack
abbrev pub fresh : State
fresh = record {
  spec = none;
  dest_vm_ref = none;
  dest_disks = [];
  rollback = [];
  source_was_running = false;
  powered_on = false;
  source_hg = "";
  dest_hg = "";
  src_array_name = "";
  dst_array_name = "";
  repl_pgroup = none;
  trace = [];
}

-- `assert self.spec is not None`
abbrev pub known_spec : Option VmSpec → Act VmSpec
known_spec none = raise (other_error "AssertionError" "")
known_spec (some v) = pure v

unfoldable pub the_spec : Act VmSpec
the_spec s = known_spec s.spec s

-- `assert self.dest_vm_ref is not None`
abbrev known_ref : Option String → Act String
known_ref none = raise (other_error "AssertionError" "")
known_ref (some r) = pure r

unfoldable pub the_dest_ref : Act String
the_dest_ref s = known_ref s.dest_vm_ref s

-- `self.ctx.array` of an operation that needs one
abbrev pub not_an_array : Error
not_an_array = other_error "AttributeError" "'NoneType' object has no attribute"

-- `_phase`
unfoldable pub phase : String → Act (Unit {0})
unfolding happen emit
phase name = do
  emit (fstring ("=== " ∷ name ∷ " ===" ∷ []))
  (v, r) ← gets (λ s. (s.spec, s.dest_vm_ref))
  happen (Event.phase name v r)

module _ (cfg : Config) where
  -- `_skip`
  unfoldable pub skip : String → Act Bool
  unfolding emit
  skip what =
      if dry_run cfg
      then (do emit (fstring ("[dry-run] would " ∷ what ∷ [])); pure true)
      else pure false

module _ (c : Connectors) where
  -- `_is_mock`
  unfoldable pub is_mock : Side → Bool
  is_mock side = c.ctx_dry_run side || (c.runner_mock side || c.runner_dry_run side)

  -- the answer of `power_state`, `(… or default).lower()`
  abbrev pub read_state : Side → String → String → Result (Option String) → Act String
  read_state side ref default (ok o) s =
      let st = lower (text_or o default) in
      (
        ok st,
        record s {
          trace = observed side ref st ∷ called (power_state side ref) succeeded ∷ s.trace;
        },
      )
  read_state side ref default (err e) s =
      (err e, record s { trace = called (power_state side ref) raised ∷ s.trace })

  unfoldable pub observe : Side → String → String → Act String
  observe side ref default s = read_state side ref default (c.state s.trace side ref) s

  -- The loop of `_await_power`, by the attempts that are left and the last answer.
  unfoldable pub poll : Side → String → String → ℕ → ℕ → String → Act (Unit {0})
  poll side ref target delay zero last = raise (
      migration_error (
        fstring (
          "VM "
          ∷ repr ref
          ∷ " did not reach power state "
          ∷ repr target
          ∷ " (last="
          ∷ repr last
          ∷ ")"
          ∷ [])))
  poll side ref target delay (suc left) last = do
    st ← observe side ref "unknown"
    let again = poll side ref target delay left st
    let pause = if ltb 0 left && ltb 0 delay then happen (slept delay) else pure tt
    if st == target || st == "unknown" then pure tt else (pause >> again)

  -- `_await_power`
  unfoldable pub await_power : Config → Side → String → String → Act (Unit {0})
  await_power cfg side ref target =
      if is_mock side
      then emit (fstring ("[mock] skipping power-state poll for " ∷ ref ∷ []))
      else poll side ref target (number_or cfg.options.poll_delay 3000)
          (max 1 (number_or cfg.options.poll_attempts 40)) "unknown"
