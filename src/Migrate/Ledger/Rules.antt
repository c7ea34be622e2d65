-- ===== src/Migrate/Ledger/Rules.antt =====
-- How an action keeps the invariant of a migration, by the ways to build an action.
use pure_hypervisor_integrat.Prelude.{
  String, ◌≡◌, refl, Bool, true, false, Option, none, some, [], ◌∷◌, arith, maybe, if◌then◌else◌,
}
use pure_hypervisor_integrat.Prelude.Text.{fstring}
use pure_hypervisor_integrat.Migrate.World.{
  Side, Error, Result, ok, err, Call, Outcome, Event, Trace, Connectors,
}
use pure_hypervisor_integrat.Migrate.Act.{
  Undo, State, Act, pure, raise, gets, modify, proceed, attempt_on, attempt, require, happen, emit,
  perform, push, ◌>>=◌, ◌>>◌,
}
use pure_hypervisor_integrat.Migrate.Service.{
  Config, dry_run, phase, skip, the_spec, the_dest_ref, read_state, observe,
}
use pure_hypervisor_integrat.Migrate.Ledger.Defs.{Live, Permitted, Fits, Undoable, Good}

-- `m` keeps `P`, whether it returns or raises
pub record Preserves {A : Type 0} (P : State → Type 0) (m : Act A) : Type 0 where
  pub after : (s : State) → P s → P (m s).1

module _ {A : Type 0} {P : State → Type 0} where
  pub Preserves-gets : (read : State → A) → Preserves P (gets read)
  Preserves-gets read = record { after = λ s held. held }

  pub Preserves-raise : (exc : Error) → Preserves P (raise {A = A} exc)
  Preserves-raise exc = record { after = λ s held. held }

  pub Preserves-pure : (x : A) → Preserves P (pure x)
  Preserves-pure x = record { after = λ s held. held }

  pub Preserves-if :
      (test : Bool) (this that : Act A)
      → (test ≡ true → Preserves P this)
      → (test ≡ false → Preserves P that)
      → Preserves P (if test then this else that)
  Preserves-if true this that on off = on refl
  Preserves-if false this that on off = off refl

  Preserves-attempt_on :
      (r : Result A) (h : Error → Act A)
      → ((e : Error) → Preserves P (h e))
      → Preserves P (attempt_on r h)
  Preserves-attempt_on (ok a) h kh = Preserves-pure a
  Preserves-attempt_on (err e) h kh = kh e

  pub Preserves-attempt :
      (m : Act A) (h : Error → Act A)
      → Preserves P m
      → ((e : Error) → Preserves P (h e))
      → Preserves P (attempt m h)
  unfolding attempt
  Preserves-attempt m h km kh = record {
    after = λ s g. let (r, s') = m s in (Preserves-attempt_on r h kh).after s' (km.after s g);
  }

module _ {P : State → Type 0} {B C : Type 0} (next : B → Act C)
    (later : (b : B) → Preserves P (next b)) where
  -- what follows an action, from the way in which it ended
  proceed-kept : (r : Result B) (t : State) → P t → P (proceed r next t).1
  proceed-kept (ok b) t held = (later b).after t held
  proceed-kept (err e) t held = held

pub Preserves-bind :
    {P : State → Type 0} {B C : Type 0} (first : Act B) (next : B → Act C)
    → Preserves P first
    → ((b : B) → Preserves P (next b))
    → Preserves P (first >>= next)
unfolding ◌>>=◌
Preserves-bind first next kept later = record {
  after = λ t held. proceed-kept next later (first t).0 (first t).1 (kept.after t held);
}

pub Preserves-maybe :
    {A B : Type 0} {P : State → Type 0} (o : Option A) (m : Act B) (f : A → Act B)
    → Preserves P m
    → ((a : A) → Preserves P (f a))
    → Preserves P (maybe o m f)
Preserves-maybe none m f km kf = km
Preserves-maybe (some a) m f km kf = kf a

module _ {P : State → Type 0} where
  pub Preserves-require : (b : Bool) (e : Error) → Preserves P (require b e)
  unfolding require
  Preserves-require true e = Preserves-pure tt
  Preserves-require false e = Preserves-raise e

  -- an action that changes nothing
  pub Preserves-still : {A : Type 0} (m : Act A) → ((s : State) → (m s).1 ≡ s) → Preserves P m
  Preserves-still m still = record { after = λ s h. rw still h }

  pub Preserves-the_spec : Preserves P the_spec
  unfolding the_spec
  Preserves-the_spec = Preserves-still _ (λ s. ground arith)

  pub Preserves-the_dest_ref : Preserves P the_dest_ref
  unfolding the_dest_ref
  Preserves-the_dest_ref = Preserves-still _ (λ s. ground arith)

pub ruleset keep_rules = (
  Preserves-pure, Preserves-raise, Preserves-gets, Preserves-if, Preserves-attempt, Preserves-bind,
  Preserves-maybe, Preserves-require, Preserves-the_spec, Preserves-the_dest_ref,
)

module _ {c : Connectors} {cfg : Config} {E : Trace → Type 0}
    (grow : (e : Event) (t : Trace) → E t → E (e ∷ t)) where
  pub Preserves-happen :
      (e : Event) → ((t : Trace) → Fits c cfg e t) → Preserves (Good c cfg E) (happen e)
  unfolding happen
  Preserves-happen e fits = record {
    after = λ s g. record {
      orderly = (fits s.trace, g.orderly);
      undoable = g.undoable;
      extra = grow e s.trace g.extra;
    };
  }

  pub Preserves-emit : (line : String) → Preserves (Good c cfg E) (emit line)
  unfolding emit
  Preserves-emit line = Preserves-happen _ (λ t. tt)

  pub Preserves-perform :
      {A : Type 0} (call : Call) (judge : A → Outcome) (f : Trace → Result A)
      → ((t : Trace) → E t → Permitted c cfg call t)
      → Preserves (Good c cfg E) (perform call judge f)
  unfolding perform
  Preserves-perform call judge f allowed = record {
    after = λ s g. record {
      orderly = (allowed s.trace g.extra, g.orderly);
      undoable = g.undoable;
      extra = grow _ s.trace g.extra;
    };
  }

  pub Preserves-modify :
      (f : State → State)
      → ((s : State) → (f s).trace ≡ s.trace)
      → ((s : State) → (f s).rollback ≡ s.rollback)
      → Preserves (Good c cfg E) (modify f)
  Preserves-modify f same_trace same_stack = record {
    after = λ s g. record {
      orderly = rw same_trace g.orderly;
      undoable = rw same_stack g.undoable;
      extra = rw same_trace g.extra;
    };
  }

  pub Preserves-push :
      (label : String) (u : Undo) → Undoable c cfg u → Preserves (Good c cfg E) (push label u)
  unfolding push
  Preserves-push label u allowed = record {
    after =
        λ s g. record { orderly = g.orderly; undoable = (allowed, g.undoable); extra = g.extra };
  }

  pub Preserves-phase : (name : String) → Preserves (Good c cfg E) (phase name)
  unfolding phase
  Preserves-phase name = search (keep_rules, Preserves-emit, Preserves-happen)

  pub Preserves-observe :
      (side : Side) (ref default : String) → Preserves (Good c cfg E) (observe c side ref default)
  unfolding observe
  Preserves-observe side ref default = record {
    after = λ s g. observed_by (c.state s.trace side ref) s g;
  }
    where
      observed_by :
          (r : Result (Option String)) (s : State)
          → Good c cfg E s
          → Good c cfg E (read_state c side ref default r s).1
      observed_by (ok o) s g = record {
        orderly = (tt, (tt, g.orderly));
        undoable = g.undoable;
        extra = grow _ _ (grow _ _ g.extra);
      }
      observed_by (err e) s g = record {
        orderly = (tt, g.orderly);
        undoable = g.undoable;
        extra = grow _ _ g.extra;
      }

  -- A step that a dry run skips: what follows may use that this is none.
  pub Preserves-skip :
      {A : Type 0} (what : String) (f : Bool → Act A)
      → (dry_run cfg ≡ true → Preserves (Good c cfg E) (f true))
      → (Live cfg → Preserves (Good c cfg E) (f false))
      → Preserves (Good c cfg E) (skip cfg what >>= f)
  unfolding skip emit ◌>>=◌
  Preserves-skip what f dry live = by_case (dry_run cfg) refl
    where
      planned : Act Bool
      planned = emit (fstring ("[dry-run] would " ∷ what ∷ [])) >> pure true

      by_case :
          (b : Bool)
          → dry_run cfg ≡ b
          → Preserves (Good c cfg E) ((if b then planned else pure false) >>= f)
      by_case true e = record { after = λ s g. (dry e).after _ ((Preserves-emit _).after s g) }
      by_case false e = record { after = λ s g. (live e).after s g }

pub ruleset good_rules = (
  Preserves-skip, keep_rules, Preserves-happen, Preserves-emit, Preserves-perform, Preserves-modify,
  Preserves-push, Preserves-phase, Preserves-observe,
)
