-- ===== src/Migrate/Act.antt =====
-- The orchestrator's methods as actions on its mutable fields. What was changed before an exception
-- stays changed, so the state comes back beside the error too.
use pure_hypervisor_integrat.Prelude.{String, Bool, true, false, Option, List, ◌∷◌, if◌then◌else◌}
use pure_hypervisor_integrat.Migrate.Spec.{DiskSpec, VmSpec}
use pure_hypervisor_integrat.Migrate.World.{
  Error, Result, ok, err, Reply, Call, Outcome, succeeded, refused, raised, Event, logged, called,
  Trace,
}

-- the lambdas that `_create_dest_vm`, `_quiesce_source` and `_build_destination_disks` push
pub data Undo : Type 0 where
  teardown_dest : String → Undo
  restart_source : Undo
  remove_pgroup : String → Undo

-- an entry of the rollback stack
pub record Entry : Type 0 where
  pub label : String
  pub undo : Undo

-- the fields of `MigrationService` that `run` changes, and all that has happened
pub record State : Type 0 where
  pub spec : Option VmSpec
  pub dest_vm_ref : Option String
  pub dest_disks : List DiskSpec
  -- the last pushed entry first
  pub rollback : List Entry
  pub source_was_running : Bool
  pub powered_on : Bool
  pub source_hg : String
  pub dest_hg : String
  pub src_array_name : String
  pub dst_array_name : String
  pub repl_pgroup : Option String
  pub trace : Trace

abbrev pub Act : Type 0 → Type 0
Act A = State → Result A × State

module _ {A : Type 0} where
  abbrev pub pure : A → Act A
  pure a s = (ok a, s)

  abbrev pub raise : Error → Act A
  raise e s = (err e, s)

  abbrev pub gets : (State → A) → Act A
  gets f s = (ok (f s), s)

abbrev pub modify : (State → State) → Act (Unit {0})
modify f s = (ok tt, f s)

module _ {A B : Type 0} where
  abbrev pub proceed : Result A → (A → Act B) → Act B
  proceed (ok a) f s = f a s
  proceed (err e) f s = (err e, s)

  infixl 10 ◌>>=◌
  unfoldable pub ◌>>=◌ : Act A → (A → Act B) → Act B
  ◌>>=◌ m f s = let (r, s') = m s in proceed r f s'

infixl 10 ◌>>◌
abbrev pub ◌>>◌ : {B : Type 0} → Act (Unit {0}) → Act B → Act B
m >> k = m >>= λ _. k

-- `except Exception as exc: handler`; the state is the one that the exception left
abbrev pub attempt_on : {A : Type 0} → Result A → (Error → Act A) → Act A
attempt_on (ok a) handler s = (ok a, s)
attempt_on (err e) handler s = handler e s

unfoldable pub attempt : {A : Type 0} → Act A → (Error → Act A) → Act A
attempt m handler s = let (r, s') = m s in attempt_on r handler s'

-- `raise E unless the test holds`
unfoldable pub require : Bool → Error → Act (Unit {0})
require true e = pure tt
require false e = raise e

-- an event is put on the record
unfoldable pub happen : Event → Act (Unit {0})
happen e s = (ok tt, record s { trace = e ∷ s.trace })

-- `self.emit(line)`: the job's emitter appends to a list and to unbounded queues, and never raises
unfoldable pub emit : String → Act (Unit {0})
unfolding happen
emit line = happen (logged line)

abbrev pub outcome : {A : Type 0} → (A → Outcome) → Result A → Outcome
outcome judge (ok a) = judge a
outcome judge (err e) = raised

abbrev pub returned : {A : Type 0} → A → Outcome
returned a = succeeded

abbrev pub judged : Reply → Outcome
judged r = if r.success then succeeded else refused

-- A call: the answer depends on what has happened so far, and the call is recorded with its outcome.
unfoldable pub perform : {A : Type 0} → Call → (A → Outcome) → (Trace → Result A) → Act A
perform c judge f s =
    let r = f s.trace in (r, record s { trace = called c (outcome judge r) ∷ s.trace })

-- `self.rollback.push(label, undo)`
unfoldable pub push : String → Undo → Act (Unit {0})
push label undo s =
    (ok tt, record s { rollback = record { label = label; undo = undo } ∷ s.rollback })
