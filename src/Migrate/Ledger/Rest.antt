-- ===== src/Migrate/Ledger/Rest.antt =====
-- When `_quiesce_source` returns in a move, the source VM has been seen at rest.
use pure_hypervisor_integrat.Prelude.{
  ℕ, zero, suc, String, ◌≡◌, refl, ◌⊎◌, inl, inr, true, false, ◌||◌, ◌==◌, eq_iff, Option, [], ◌∷◌,
  Any, arith,
}
use pure_hypervisor_integrat.Migrate.World.{
  Side, source, Result, ok, err, observed, Trace, Connectors,
}
use pure_hypervisor_integrat.Migrate.Act.{State}
use pure_hypervisor_integrat.Migrate.Service.{
  Config, is_move, is_mock, read_state, observe, poll, await_power,
}
use pure_hypervisor_integrat.Migrate.Power.{stop_source, quiesce_source}
use pure_hypervisor_integrat.Migrate.Yields.{
  Returns, Yields, Always, Yields-raise, Yields-if, Yields-bind, Yields-after, Yields-weaken,
  Yields-modify, Yields-skip, Yields-emit_past,
}
use pure_hypervisor_integrat.Migrate.Ledger.Defs.{Live, AtRest}

-- this state of this VM is on the record
abbrev Seen : Side → String → String → State → Type 0
Seen side ref st s = Any (λ e. e ≡ observed side ref st) s.trace

-- the answer that `observe` returns is on the record
observe-Seen :
    (c : Connectors) (side : Side) (ref default : String)
    → Yields Always (observe c side ref default) (Seen side ref)
unfolding observe
observe-Seen c side ref default = record { after = λ s _. seen (c.state s.trace side ref) s }
  where
    seen :
        (r : Result (Option String)) (s : State)
        → Returns (Seen side ref) (read_state c side ref default r s)
    seen (ok o) s = inl refl
    seen (err e) s = tt

module _ (cfg : Config) (st : String) where
  -- a state that was seen, and that counts as rest, puts the source at rest
  seen-AtRest :
      ((st ≡ "stopped") ⊎ (st ≡ "unknown"))
      → (t : Trace) → Any (λ e. e ≡ observed source cfg.vm_ref st) t
      → AtRest cfg t
  seen-AtRest w [] h = elim h [ ]
  seen-AtRest w (e ∷ t) (inl here) = inl (ground arith)
  seen-AtRest w (e ∷ t) (inr later) = inr (seen-AtRest w t later)

  counts_as_rest : (st == "stopped" || st == "unknown") ≡ true → (st ≡ "stopped") ⊎ (st ≡ "unknown")
  counts_as_rest h = ground (arith, eq_iff st "stopped", eq_iff st "unknown")

stopped_there :
    (cfg : Config) (st : String)
    → (st == "stopped") ≡ true
    → (s : State) → Seen source cfg.vm_ref st s
    → AtRest cfg s.trace
stopped_there cfg st h s = seen-AtRest cfg st (inl ((eq_iff st "stopped").0 h)) s.trace

abbrev Rested : {A : Type 0} → Config → A → State → Type 0
Rested cfg _ s = AtRest cfg s.trace

module _ (c : Connectors) (cfg : Config) where
  poll-AtRest :
      (delay left : ℕ) (last : String)
      → Yields Always (poll c source cfg.vm_ref "stopped" delay left last) (Rested cfg)
  unfolding poll
  poll-AtRest delay zero last = Yields-raise _ _
  poll-AtRest delay (suc left) last =
      Yields-bind _ _ (observe-Seen c source cfg.vm_ref "unknown") λ st.
        Yields-if _ _ _ _
          (λ hit. record {
            after = λ s seen. seen-AtRest cfg st (counts_as_rest cfg st hit) s.trace seen;
          })
          (λ miss. Yields-after _ _ (λ _. poll-AtRest delay left st))

  await_power-AtRest :
      is_mock c source ≡ false
      → Yields Always (await_power c cfg source cfg.vm_ref "stopped") (Rested cfg)
  unfolding await_power
  await_power-AtRest real = rw real (poll-AtRest _ _ _)

  module _ (real : is_mock c source ≡ false) (live : Live cfg) where
    stop_source-AtRest : Yields Always (stop_source c cfg) (Rested cfg)
    unfolding stop_source
    stop_source-AtRest = Yields-skip cfg _ _ live (
        Yields-after _ _ λ r. Yields-after _ _ λ _.
          Yields-after _ _ λ _. Yields-bind _ _ (await_power-AtRest real) λ _. Yields-emit_past _)

    pub quiesce_source-AtRest :
        is_move cfg ≡ true → Yields Always (quiesce_source c cfg) (Rested cfg)
    unfolding quiesce_source
    quiesce_source-AtRest move = rw move (
        Yields-after _ _ λ _. Yields-bind _ _ (observe-Seen c source cfg.vm_ref "unknown") λ st.
          Yields-bind _ _ (Yields-modify (Seen source cfg.vm_ref st) _ (λ s seen. seen)) λ _.
            Yields-if _ _ _ _
              (λ stopped. Yields-weaken (stopped_there cfg st stopped) (Yields-emit_past _))
              (λ other. Yields-weaken (λ _ _. tt) stop_source-AtRest))
