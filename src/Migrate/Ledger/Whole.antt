-- ===== src/Migrate/Ledger/Whole.antt =====
-- The invariant of a migration through the whole of `run`.
use pure_hypervisor_integrat.Prelude.{
  ◌≡◌, refl, inl, inr, Bool, true, false, List, [], ◌∷◌, Any, if◌then◌else◌,
}
use pure_hypervisor_integrat.Migrate.Spec.{DiskSpec}
use pure_hypervisor_integrat.Migrate.World.{
  source, Error, Result, ok, err, Event, called, succeeded, delete_vm, Trace, Connectors, Call,
  Reply,
}
use pure_hypervisor_integrat.Migrate.Act.{State, Act, pure, judged, proceed, ◌>>=◌}
use pure_hypervisor_integrat.Migrate.Service.{Config, is_move, is_mock, fresh}
use pure_hypervisor_integrat.Migrate.Finish.{
  remove_source_vm, after_removal, finalize_move, finalize_copy,
}
use pure_hypervisor_integrat.Migrate.Steps.{clear, unwind}
use pure_hypervisor_integrat.Migrate.Run.{
  prepare, build, body, rolled_back, fail_and_roll_back, conclude, run,
}
use pure_hypervisor_integrat.Migrate.Power.{quiesce_source}
use pure_hypervisor_integrat.Migrate.Yields.{
  Returns, Yields, Always, Yields-if, Yields-bind, Yields-after, Yields-weaken, Yields-attempt,
  Yields-perform,
}
use pure_hypervisor_integrat.Migrate.Ledger.Defs.{Live, AtRest, Quiet, Removed, Orderly, Good}
use pure_hypervisor_integrat.Migrate.Ledger.Rules.{
  Preserves, Preserves-bind, Preserves-if, Preserves-perform, Preserves-emit, Preserves-phase,
  Preserves-the_spec, good_rules,
}
use pure_hypervisor_integrat.Migrate.Ledger.Looking.{
  preflight-Good, capture_spec-Good, prepare_source-Good, cleanup_scratch-Good,
  resolve_volumes-Good,
}
use pure_hypervisor_integrat.Migrate.Ledger.Building.{
  create_dest_vm-Good, quiesce_source-Good, power_on_dest-Good, finalize_dest_disks-Good,
  convert_dest_disks-Good, set_boot-Good, build_destination_disks-Good,
}
use pure_hypervisor_integrat.Migrate.Ledger.Finishing.{
  ensure_array_connection-Good, cleanup_replication-Good, finalize_copy-Good, unwind_entries-Good,
  delete_source_volumes-Good,
}
use pure_hypervisor_integrat.Migrate.Ledger.Rest.{quiesce_source-AtRest}

-- What the first action achieves if it returns, the rest may use.
pub Preserves-bind_knowing :
    {A B : Type 0} {P : State → Type 0} {Q : A → State → Type 0} (m : Act A) (f : A → Act B)
    → Preserves P m
    → Yields P m Q
    → ((a : A) (s : State) → P s → Q a s → P (f a s).1)
    → Preserves P (m >>= f)
unfolding ◌>>=◌
Preserves-bind_knowing {A} {P} {Q} m f km ym k = record {
  after = λ s p. next (m s) (km.after s p) (ym.after s p);
}
  where
    next : (r : Result A × State) → P r.1 → Returns Q r → P (proceed r.0 f r.1).1
    next (ok a, s) p q = k a s p q
    next (err e, s) p q = p

module _ {c : Connectors} {cfg : Config} {E : Trace → Type 0}
    (grow : (e : Event) (t : Trace) → E t → E (e ∷ t)) where
  remove_source_vm-Good :
      Live cfg → is_move cfg ≡ true → Preserves (Good c cfg E) (remove_source_vm c cfg)
  unfolding remove_source_vm
  remove_source_vm-Good live move =
      search
        (
          good_rules,
          Preserves-perform grow (delete_vm source cfg.vm_ref true) judged _
              (λ t _. (live, move, refl, refl)),
        )
        depth 20

yields_true : {P : State → Type 0} → Yields P (pure true) (λ gone s. gone ≡ true → P s)
yields_true = record { after = λ s p _. p }

yields_false : {P : State → Type 0} → Yields Always (pure false) (λ gone s. gone ≡ true → P s)
yields_false = record { after = λ s _ e. cc }

-- a success that was judged is on the record as one
success_recorded :
    (call : Call) (r : Reply)
    → r.success ≡ true
    → (t : Trace) → Any (λ e. e ≡ called call (judged r)) t
    → Any (λ e. e ≡ called call succeeded) t
success_recorded call r good [] h = elim h [ ]
success_recorded call r good (e ∷ t) (inl here) = inl (rw good at here)
success_recorded call r good (e ∷ t) (inr later) = inr (success_recorded call r good t later)

-- `_finalize_move` learns that the source VM is gone.
remove_source_vm-Removed :
    (c : Connectors) (cfg : Config)
    → Yields Always (remove_source_vm c cfg) (λ gone s. gone ≡ true → Removed cfg s.trace)
unfolding remove_source_vm
remove_source_vm-Removed c cfg =
    Yields-attempt _ _
      (Yields-bind _ _ (Yields-perform (delete_vm source cfg.vm_ref true) judged _) λ r.
        Yields-if r.success _ _ _
          (λ gone.
            Yields-weaken (λ s. success_recorded (delete_vm source cfg.vm_ref true) r gone s.trace)
              yields_true)
          (λ still. Yields-after _ _ λ _. yields_false))
      (λ exc. Yields-after _ _ λ _. yields_false)

module _ {c : Connectors} {cfg : Config} {E : Trace → Type 0}
    (grow : (e : Event) (t : Trace) → E t → E (e ∷ t)) where
  -- with the source VM gone, its volumes may be erased
  after_removal-Good :
      Live cfg
      → is_move cfg ≡ true
      → (disks : List DiskSpec) (gone : Bool) (s : State) → Good c cfg E s
      → (gone ≡ true → Removed cfg s.trace)
      → Good c cfg E (after_removal c cfg disks gone s).1
  unfolding after_removal
  after_removal-Good live move disks true s g removed = forget (
      (delete_source_volumes-Good {E = λ t. E t × Removed cfg t} (λ e t h. (grow e t h.0, inr h.1))
          move (λ t h. h.1) live disks).after
        s (remember (removed refl)))
    where
      remember : Removed cfg s.trace → Good c cfg (λ t. E t × Removed cfg t) s
      remember r = record { orderly = g.orderly; undoable = g.undoable; extra = (g.extra, r) }

      forget : {s : State} → Good c cfg (λ t. E t × Removed cfg t) s → Good c cfg E s
      forget g = record { orderly = g.orderly; undoable = g.undoable; extra = g.extra.0 }
  after_removal-Good live move disks false s g removed = (Preserves-emit grow _).after s g

  finalize_move-Good : is_move cfg ≡ true → Preserves (Good c cfg E) (finalize_move c cfg)
  unfolding finalize_move
  finalize_move-Good move = Preserves-bind _ _ (Preserves-phase grow _) λ _.
      Preserves-bind _ _ Preserves-the_spec λ v.
        Preserves-if _ _ _ (λ dry. Preserves-emit grow _)
          λ live.
            Preserves-bind_knowing _ _ (remove_source_vm-Good grow live move)
              (Yields-weaken (λ _ _. tt) (remove_source_vm-Removed c cfg))
              (λ gone s g r. after_removal-Good live move v.disks gone s g r)

  prepare-Good : Preserves (Good c cfg E) (prepare c cfg)
  unfolding prepare
  prepare-Good =
      search
        (
          good_rules, preflight-Good, capture_spec-Good, prepare_source-Good, resolve_volumes-Good,
          create_dest_vm-Good, ensure_array_connection-Good,
        )
        depth 20

  module _ (quiet : (t : Trace) → E t → Live cfg → Quiet c cfg t) where
    build-Good : Preserves (Good c cfg E) (build c cfg)
    unfolding build
    build-Good =
        search
          (
            good_rules, build_destination_disks-Good, finalize_dest_disks-Good,
            convert_dest_disks-Good, set_boot-Good, power_on_dest-Good, cleanup_replication-Good,
          )
          depth 20

    finish-Good :
        Preserves (Good c cfg E) (if is_move cfg then finalize_move c cfg else finalize_copy c cfg)
    finish-Good = Preserves-if _ _ _ finalize_move-Good (λ _. finalize_copy-Good grow)

-- nothing more is known of the past
abbrev AnyPast : Trace → Type 0
AnyPast _ = Unit

AnyPast-grow : (e : Event) (t : Trace) → AnyPast t → AnyPast (e ∷ t)
AnyPast-grow e t h = tt

module _ (c : Connectors) (cfg : Config) where
  abbrev pub Kept : State → Type 0
  Kept = Good c cfg AnyPast

  -- from here on the source of a move is at rest
  abbrev Rests : Trace → Type 0
  Rests t = Live cfg → Quiet c cfg t

  Rests-grow : (e : Event) (t : Trace) → Rests t → Rests (e ∷ t)
  Rests-grow e t h live move real = inr (h live move real)

  quiesce_source-Rests : Yields Kept (quiesce_source c cfg) (λ _ s. Rests s.trace)
  quiesce_source-Rests = record {
    after = λ s g.
        later (quiesce_source c cfg s)
          λ live move real. (quiesce_source-AtRest c cfg real live move).after s tt;
  }
    where
      later :
          (r : Result (Unit {0}) × State)
          → (Live cfg
              → is_move cfg ≡ true
              → is_mock c source ≡ false
              → Returns (λ _ s. AtRest cfg s.trace) r)
          → Returns (λ _ s. Rests s.trace) r
      later (ok a, s) h = h
      later (err e, s) h = tt

  body-Good : Preserves Kept (body c cfg)
  unfolding body
  body-Good = Preserves-bind _ _ (prepare-Good AnyPast-grow) λ _.
      Preserves-bind_knowing _ _ (quiesce_source-Good AnyPast-grow) quiesce_source-Rests
        λ _ s g rests. forget (
          (Preserves-bind _ _ (build-Good Rests-grow (λ t h. h))
              (λ _. finish-Good Rests-grow (λ t h. h))).after
            s (record { orderly = g.orderly; undoable = g.undoable; extra = rests }))
    where
      forget : {s : State} → Good c cfg Rests s → Kept s
      forget g = record { orderly = g.orderly; undoable = g.undoable; extra = tt }

  unwind-Good : Preserves Kept (unwind c cfg)
  unfolding unwind ◌>>=◌
  unwind-Good = record {
    after = λ s g. (unwind_entries-Good AnyPast-grow s.rollback [] g.undoable).after s g;
  }

  clear-Good : Preserves Kept clear
  unfolding clear
  clear-Good = record { after = λ s g. record { orderly = g.orderly; undoable = tt; extra = tt } }

  fail-Good : (e : Error) → Preserves Kept (fail_and_roll_back c cfg e)
  unfolding fail_and_roll_back rolled_back
  fail-Good e = search (good_rules, AnyPast-grow, unwind-Good, cleanup_scratch-Good) depth 20

  conclude-Good : Preserves Kept (conclude c cfg)
  unfolding conclude
  conclude-Good = search (good_rules, AnyPast-grow, clear-Good, cleanup_scratch-Good) depth 20

  run-Good : Preserves Kept (run c cfg)
  unfolding run
  run-Good = search (good_rules, body-Good, fail-Good, conclude-Good) depth 20

  -- every call of a run, from a fresh service, was allowed when it was made
  pub run-Orderly : Orderly c cfg (run c cfg fresh).1.trace
  run-Orderly = (run-Good.after fresh (record { orderly = tt; undoable = tt; extra = tt })).orderly
