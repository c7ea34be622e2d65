-- ===== src/Proxmox/Retry.antt =====
-- How often and how long `_locked_retry` of backend/phif/connectors/proxmox/connector.py tries a command.
use pure_hypervisor_integrat.Prelude.{
  ℕ, zero, suc, ◌+◌, ◌*◌, ◌≤◌, String, ◌≡◌, refl, sym, ap, ◌∙◌, Bool, true, false, List, [], ◌∷◌,
  ◌++◌, All, ◌⊎◌, inl, inr, subst, if◌then◌else◌, arith,
}
use pure_hypervisor_integrat.Array.Io.{Answer, done, failed}
use pure_hypervisor_integrat.Proxmox.Names.{lock_timeout}
use pure_hypervisor_integrat.Proxmox.Session.{
  Outside, Session, Event, ran, slept, said, asked, Ssh, note, fault_text, rounds, run,
  locked_retry,
}
use mathlib.Core.List.{append_assoc}

-- what a command ended with
abbrev ending_text : Answer String → String
ending_text (done out) = out
ending_text (failed e) = fault_text e

abbrev pub runs : List Event → ℕ
runs [] = 0
runs (ran c ∷ events) = suc (runs events)
runs (e ∷ events) = runs events

abbrev pub waiting : List Event → ℕ
waiting [] = 0
waiting (slept n ∷ events) = n + waiting events
waiting (e ∷ events) = waiting events

-- the event is the command, or a pause
abbrev pub IsTry : Ssh → Event → Type 0
IsTry c (ran d) = d ≡ c
IsTry c (slept n) = Unit
IsTry c (said t) = ⊥
IsTry c (asked q) = ⊥

-- the waiting that so many further rounds after the one numbered `i` can take
abbrev waits : ℕ → ℕ → ℕ
waits zero i = 0
waits (suc left) i = 2 * (i + 1) + waits left (suc i)

-- The command was run once at least and so often at most, with so much waiting at most between; nothing
-- else was done; and it ended without a lock's error, or all runs were made.
abbrev pub Tried : ℕ → ℕ → Ssh → Session → Answer String × Session → Type 0
Tried most wait c s (a, s') =
    (new : List Event) × (s' ≡ record s { events = new ++ s.events })
    × All (IsTry c) new
    × (1 ≤ runs new)
    × (runs new ≤ most)
    × (waiting new ≤ wait)
    × ((lock_timeout (ending_text a) ≡ false) ⊎ (runs new ≡ most))

All-two :
    (P : Event → Type 0) (xs : List Event) (a b : Event)
    → All P xs
    → P a
    → P b
    → All P (xs ++ (a ∷ b ∷ []))
All-two P [] a b h pa pb = (pa, (pb, tt))
All-two P (x ∷ xs) a b h pa pb = (h.0, All-two P xs a b h.1 pa pb)

runs-two : (xs : List Event) (n : ℕ) (c : Ssh) → runs (xs ++ (slept n ∷ ran c ∷ [])) ≡ suc (runs xs)
runs-two [] n c = refl
runs-two (ran d ∷ xs) n c = ap suc (runs-two xs n c)
runs-two (slept m ∷ xs) n c = runs-two xs n c
runs-two (said t ∷ xs) n c = runs-two xs n c
runs-two (asked q ∷ xs) n c = runs-two xs n c

waiting-two :
    (xs : List Event) (n : ℕ) (c : Ssh) → waiting (xs ++ (slept n ∷ ran c ∷ [])) ≡ waiting xs + n
waiting-two [] n c = omega arith
waiting-two (ran d ∷ xs) n c = waiting-two xs n c
waiting-two (slept m ∷ xs) n c = omega (arith, waiting-two xs n c)
waiting-two (said t ∷ xs) n c = waiting-two xs n c
waiting-two (asked q ∷ xs) n c = waiting-two xs n c

module _ (o : Outside) (c : Ssh) where
  -- the last round
  once :
      (most wait : ℕ) (s : Session)
      → (lock_timeout (ending_text (o.shell s.events c)) ≡ false) ⊎ (1 ≡ most)
      → 1 ≤ most
      → Tried most wait c s (run o c s)
  unfolding run
  once most wait s why h =
      (ran c ∷ [], refl, (refl, tt), omega arith, omega (arith, h), omega arith, why)

  -- a round, a pause and the rounds that follow
  again :
      (most wait pause : ℕ) (s : Session) (r : Answer String × Session)
      → Tried most wait c (note (slept pause) (note (ran c) s)) r
      → Tried (suc most) (pause + wait) c s r
  again most wait pause s (a, s') (new, grown, fine, some_run, few, short, why) = (
    new ++ (slept pause ∷ ran c ∷ []),
    grown ∙ ap (λ events. record s { events = events }) (sym (append_assoc new _ s.events)),
    All-two (IsTry c) new (slept pause) (ran c) fine tt refl,
    omega (arith, runs-two new pause c),
    omega (arith, few, runs-two new pause c),
    omega (arith, short, waiting-two new pause c),
    elim why [ inl calm ↦ inl calm | inr all ↦ inr (runs-two new pause c ∙ ap suc all) ],
  )

  -- a round goes on after a lock's error, and ends else
  judged :
      (most wait pause : ℕ) (s : Session) (r more : Answer String × Session) (lock : Bool)
      → r ≡ run o c s
      → lock_timeout (ending_text (o.shell s.events c)) ≡ lock
      → 1 ≤ most
      → Tried most wait c (note (slept pause) (note (ran c) s)) more
      → Tried (suc most) (pause + wait) c s (if lock then more else r)
  judged most wait pause s r more true q shown h later = again most wait pause s more later
  judged most wait pause s r more false q shown h later =
      subst (Tried (suc most) (pause + wait) c s) (sym q)
        (once (suc most) (pause + wait) s (inl shown) (omega (arith, h)))

  rounds-Tried :
      (left i : ℕ) (s : Session) → Tried (suc left) (waits left i) c s (rounds o left i c s)
  unfolding rounds
  rounds-Tried zero i s = once 1 0 s (inr refl) (omega arith)
  rounds-Tried (suc left) i s =
      by_answer left i s (rounds-Tried left (suc i) (note (slept (2 * (i + 1))) (note (ran c) s)))
        (o.shell s.events c) refl
    where
      by_answer :
          (left i : ℕ) (s : Session)
          → Tried
              (suc left)
              (waits left (suc i))
              c
              (note (slept (2 * (i + 1))) (note (ran c) s))
              (rounds o left (suc i) c (note (slept (2 * (i + 1))) (note (ran c) s)))
          → (a : Answer String) → o.shell s.events c ≡ a
          → Tried (suc (suc left)) (waits (suc left) i) c s (elim a [
            | done out ↦
                if lock_timeout out
                then rounds o left (suc i) c (note (slept (2 * (i + 1))) (note (ran c) s))
                else run o c s
            | failed e ↦
                if lock_timeout (fault_text e)
                then rounds o left (suc i) c (note (slept (2 * (i + 1))) (note (ran c) s))
                else run o c s
          ])
      by_answer left i s later (done out) q =
          judged (suc left) (waits left (suc i)) (2 * (i + 1)) s (run o c s) _ (lock_timeout out)
            refl (ap (λ a. lock_timeout (ending_text a)) q) (omega arith) later
      by_answer left i s later (failed e) q =
          judged (suc left) (waits left (suc i)) (2 * (i + 1)) s (run o c s) _
            (lock_timeout (fault_text e)) refl (ap (λ a. lock_timeout (ending_text a)) q)
            (omega arith) later

  -- Whatever a node answers, a command is run on it between once and six times, with at most 30
  -- seconds of waiting between, and nothing else is done meanwhile; the answer that is returned or
  -- raised does not show that a lock was held, unless all six runs have been made.
  pub locked_retry-Tried : (s : Session) → Tried 6 30 c s (locked_retry o c s)
  unfolding locked_retry
  locked_retry-Tried = rounds-Tried 5 0
