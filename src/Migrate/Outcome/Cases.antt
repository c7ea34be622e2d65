-- ===== src/Migrate/Outcome/Cases.antt =====
-- A bind or a handled action, by the way in which its first part ends; and what an action keeps that
-- only adds to the record.
use pure_hypervisor_integrat.Prelude.{String, ◌≡◌, refl, ◌∷◌}
use pure_hypervisor_integrat.Migrate.World.{Error, Result, ok, err, Call, Outcome, Event, Trace}
use pure_hypervisor_integrat.Migrate.Act.{
  State, Act, proceed, attempt, attempt_on, happen, emit, perform, ◌>>=◌,
}
use pure_hypervisor_integrat.Migrate.Ledger.Rules.{Preserves}

module _ {A B : Type 0} (m : Act A) (f : A → Act B) (s : State)
    (K : Result B × State → Type 0) where
  proceed_case :
      (r : Result A × State)
      → m s ≡ r
      → ((a : A) (s' : State) → m s ≡ (ok a, s') → K (f a s'))
      → ((e : Error) (s' : State) → m s ≡ (err e, s') → K (err e, s'))
      → K (proceed r.0 f r.1)
  proceed_case (ok a, s') q good bad = good a s' q
  proceed_case (err e, s') q good bad = bad e s' q

  pub bind_case :
      ((a : A) (s' : State) → m s ≡ (ok a, s') → K (f a s'))
      → ((e : Error) (s' : State) → m s ≡ (err e, s') → K (err e, s'))
      → K ((m >>= f) s)
  unfolding ◌>>=◌
  bind_case good bad = proceed_case (m s) refl good bad

module _ {A : Type 0} (m : Act A) (h : Error → Act A) (s : State)
    (K : Result A × State → Type 0) where
  caught_case :
      (r : Result A × State)
      → m s ≡ r
      → ((a : A) (s' : State) → m s ≡ (ok a, s') → K (ok a, s'))
      → ((e : Error) (s' : State) → m s ≡ (err e, s') → K (h e s'))
      → K (attempt_on r.0 h r.1)
  caught_case (ok a, s') q good bad = good a s' q
  caught_case (err e, s') q good bad = bad e s' q

  pub attempt_case :
      ((a : A) (s' : State) → m s ≡ (ok a, s') → K (ok a, s'))
      → ((e : Error) (s' : State) → m s ≡ (err e, s') → K (h e s'))
      → K (attempt m h s)
  unfolding attempt
  attempt_case good bad = caught_case (m s) refl good bad

module _ {P : State → Type 0}
    (step : (s : State) (e : Event) → P s → P (record s { trace = e ∷ s.trace })) where
  pub Steady-emit : (line : String) → Preserves P (emit line)
  unfolding emit happen
  Steady-emit line = record { after = λ s h. step s _ h }

  pub Steady-perform :
      {A : Type 0} (call : Call) (judge : A → Outcome) (f : Trace → Result A)
      → Preserves P (perform call judge f)
  unfolding perform
  Steady-perform call judge f = record { after = λ s h. step s _ h }
