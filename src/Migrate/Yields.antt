-- ===== src/Migrate/Yields.antt =====
-- What holds of the value and of the state if an action returns, by the ways to build an action.
use pure_hypervisor_integrat.Migrate.Service.{Config, dry_run, skip}
use pure_hypervisor_integrat.Prelude.{
  String, ◌∷◌, Any, inl, inr, ◌≡◌, refl, Bool, true, false, if◌then◌else◌,
}
use pure_hypervisor_integrat.Migrate.World.{
  Error, Result, ok, err, Call, Outcome, Event, called, Trace,
}
use pure_hypervisor_integrat.Migrate.Act.{
  State, Act, pure, raise, modify, proceed, attempt, attempt_on, perform, outcome, emit, happen,
  ◌>>=◌,
}

abbrev pub Returns : {A : Type 0} → (A → State → Type 0) → Result A × State → Type 0
Returns Q (ok a, s) = Q a s
Returns Q (err e, s) = Unit

-- from a state with `P`, if `m` returns, then with `Q`
pub record Yields {A : Type 0} (P : State → Type 0) (m : Act A) (Q : A → State → Type 0)
    : Type 0 where
  pub after : (s : State) → P s → Returns Q (m s)

abbrev pub Always : State → Type 0
Always _ = Unit

any_return : {A : Type 0} (r : Result A × State) → Returns (λ _ _. Unit) r
any_return (ok a, s) = tt
any_return (err e, s) = tt

module _ {A : Type 0} {P : State → Type 0} where
  pub Yields-any : (m : Act A) → Yields P m (λ _. Always)
  Yields-any m = record { after = λ s h. any_return (m s) }

  pub Yields-raise : (e : Error) (Q : A → State → Type 0) → Yields P (raise e) Q
  Yields-raise e Q = record { after = λ s h. tt }

  pub Yields-pure : (a : A) → Yields P (pure a) (λ b s. (b ≡ a) × P s)
  Yields-pure a = record { after = λ s h. (refl, h) }

  pub Yields-if :
      (b : Bool) (m n : Act A) (Q : A → State → Type 0)
      → (b ≡ true → Yields P m Q)
      → (b ≡ false → Yields P n Q)
      → Yields P (if b then m else n) Q
  Yields-if true m n Q km kn = km refl
  Yields-if false m n Q km kn = kn refl

pub Yields-weaken :
    {A : Type 0} {P P' : State → Type 0} {m : Act A} {Q : A → State → Type 0}
    → ((s : State) → P s → P' s)
    → Yields P' m Q
    → Yields P m Q
Yields-weaken w h = record { after = λ s p. h.after s (w s p) }

module _ {A B : Type 0} where
  yields_next :
      {Q : A → State → Type 0} (R : B → State → Type 0) (r : Result A × State) (f : A → Act B)
      → Returns Q r
      → ((a : A) → Yields (Q a) (f a) R)
      → Returns R (proceed r.0 f r.1)
  yields_next R (ok a, s) f h k = (k a).after s h
  yields_next R (err e, s) f h k = tt

  pub Yields-bind :
      {P : State → Type 0} {Q : A → State → Type 0} {R : B → State → Type 0} (m : Act A)
      (f : A → Act B)
      → Yields P m Q
      → ((a : A) → Yields (Q a) (f a) R)
      → Yields P (m >>= f) R
  unfolding ◌>>=◌
  Yields-bind {R} m f h k = record { after = λ s p. yields_next R (m s) f (h.after s p) k }

  -- the rest of an action decides
  pub Yields-after :
      {P : State → Type 0} {R : B → State → Type 0} (m : Act A) (f : A → Act B)
      → ((a : A) → Yields Always (f a) R)
      → Yields P (m >>= f) R
  Yields-after m f k = Yields-bind m f (Yields-any m) k

pub Yields-modify :
    {P : State → Type 0} (Q : State → Type 0) (f : State → State)
    → ((s : State) → P s → Q (f s))
    → Yields P (modify f) (λ _. Q)
Yields-modify Q f h = record { after = h }

-- A step that a dry run skips, in a run that is none.
pub Yields-skip :
    {A : Type 0} {P : State → Type 0} {R : A → State → Type 0} (cfg : Config) (what : String)
    (f : Bool → Act A)
    → dry_run cfg ≡ false
    → Yields P (f false) R
    → Yields P (skip cfg what >>= f) R
unfolding skip ◌>>=◌
Yields-skip cfg what f live h = record { after = λ s p. rw live (h.after s p) }

module _ {A : Type 0} {Q : A → State → Type 0} where
  yields_caught :
      (r : Result A × State) (handler : Error → Act A)
      → Returns Q r
      → ((e : Error) → Yields Always (handler e) Q)
      → Returns Q (attempt_on r.0 handler r.1)
  yields_caught (ok a, s) handler h k = h
  yields_caught (err e, s) handler h k = (k e).after s tt

pub Yields-attempt :
    {A : Type 0} {P : State → Type 0} {Q : A → State → Type 0} (m : Act A) (handler : Error → Act A)
    → Yields P m Q
    → ((e : Error) → Yields Always (handler e) Q)
    → Yields P (attempt m handler) Q
unfolding attempt
Yields-attempt m handler h k = record { after = λ s p. yields_caught (m s) handler (h.after s p) k }

-- the call is on the record, with its outcome
pub Yields-perform :
    {A : Type 0} {P : State → Type 0} (call : Call) (judge : A → Outcome) (f : Trace → Result A)
    → Yields P (perform call judge f) (λ a s. Any (λ e. e ≡ called call (judge a)) s.trace)
unfolding perform
Yields-perform {A} call judge f = record { after = λ s _. recorded (f s.trace) s }
  where
    recorded :
        (r : Result A) (s : State)
        → Returns
            (λ a s'. Any (λ e. e ≡ called call (judge a)) s'.trace)
            (r, record s { trace = called call (outcome judge r) ∷ s.trace })
    recorded (ok a) s = inl refl
    recorded (err e) s = tt

-- an event more leaves what has happened
pub Yields-emit_past :
    {Q : Event → Type 0} (line : String)
    → Yields (λ s. Any Q s.trace) (emit line) (λ _ s. Any Q s.trace)
unfolding emit happen
Yields-emit_past line = record { after = λ s h. inr h }
