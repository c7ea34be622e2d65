-- ===== src/Migrate/Fresh.antt =====
-- The name that _ensure_unique_dest_name of migrate/service.py settles on.
use pure_hypervisor_integrat.Prelude.{
  ℕ, zero, suc, String, false, Option, none, some, maybe, List, map, text_or, ◌∷◌, [], ◌≡◌, refl,
  sym, subst, ap, ◌∙◌, inl, inr, contains, length, if◌then◌else◌, Bool-cases, arith,
}
use pure_hypervisor_integrat.Prelude.Text.{str, fstring}
use pure_hypervisor_integrat.Prelude.Numerals.{str-injective}
use pure_hypervisor_integrat.Prelude.Search.{first_free, first_free_lem}
use pure_hypervisor_integrat.Migrate.Destination.{
  numbered, free_number, unique_name, listed_name, unlisted_name, ensure_unique_dest_name,
}
use pure_hypervisor_integrat.Migrate.Spec.{VmSpec}
use pure_hypervisor_integrat.Migrate.World.{Result, ok, err, Connectors, list_vms, called}
use pure_hypervisor_integrat.Migrate.Act.{
  Act, State, attempt, perform, emit, happen, outcome, returned, attempt_on, proceed, pure, ◌>>=◌,
}
use pure_hypervisor_integrat.Migrate.Service.{the_spec, known_spec}
use text.Mathlib.TextLemmas.{append_cancel_left, append_cancel_right}

numbered-injective : (base : String) (a b : ℕ) → numbered base a ≡ numbered base b → a ≡ b
unfolding numbered
numbered-injective base a b q = str-injective a b (
    append_cancel_right (str a) (str b) ""
      (append_cancel_left "-" _ _ (append_cancel_left base _ _ q)))

free_number-first_free :
    (f : ℕ) (existing : List String) (base : String) (n : ℕ)
    → free_number f existing base n ≡ first_free (numbered base) f existing n
unfolding free_number first_free
free_number-first_free zero existing base n = refl
free_number-first_free (suc f) existing base n =
    ap (λ later. if contains (numbered base n) existing then later else n)
      (free_number-first_free f existing base (suc n))

-- the name that is found is none of those that it was looked for among
contains-unique_name :
    (existing : List String) (base : String) → contains (unique_name existing base) existing ≡ false
unfolding unique_name
contains-unique_name existing base = elim (Bool-cases (contains base existing)) [
  | inr free ↦ rw (free) free
  | inl used ↦ rw (used) (
      ap (λ k. contains (numbered base k) existing)
        (free_number-first_free (length existing) existing base 1)
      ∙ first_free_lem (numbered base) (numbered-injective base) (length existing) existing 1
          (omega arith))
]

-- what becomes of the spec, by what the destination answers to the question for its VMs
abbrev pub NamedBy : VmSpec → Result (List (Option String)) → Result (Unit {0}) × State → Type 0
NamedBy v (ok vms) (r, s) =
    (name : String) × (s.spec ≡ some (record v { name = name }))
    × (contains name (map (λ o. text_or o "") vms) ≡ false)
NamedBy v (err e) (r, s) = s.spec ≡ some (record v { name = fstring (v.name ∷ "-" ∷ "mig" ∷ []) })

-- the names that are listed, if they can be
abbrev listed_names : Result (List (Option String)) → Option (List String)
listed_names (ok vms) = some (map (λ o. text_or o "") vms)
listed_names (err e) = none

module _ (c : Connectors) where
  listed-NamedBy :
      (v : VmSpec) (vms : List (Option String)) (s : State)
      → NamedBy v (ok vms) (listed_name c v (map (λ o. text_or o "") vms) s)
  unfolding listed_name emit happen ◌>>=◌
  listed-NamedBy v vms s =
      let existing = map (λ o. text_or o "") vms in
      elim (Bool-cases (contains v.name existing)) [
        | inl used ↦
            (unique_name existing v.name, rw (used) refl, contains-unique_name existing v.name)
        | inr free ↦
            (unique_name existing v.name, rw (free) refl, contains-unique_name existing v.name)
      ]

  -- what the method does with the answer
  after-NamedBy :
      (v : VmSpec) (answer : Result (List (Option String))) (s : State)
      → NamedBy v answer (maybe (listed_names answer) (unlisted_name c v) (listed_name c v) s)
  unfolding unlisted_name emit happen ◌>>=◌
  after-NamedBy v (ok vms) s = listed-NamedBy v vms s
  after-NamedBy v (err e) s = refl

  asked :
      (answer : Result (List (Option String))) (s : State)
      → attempt_on {A = Option (List String)}
          (proceed answer (λ vms. pure (some (map (λ o. text_or o "") vms))) s).0
          (λ exc. pure none)
          (proceed answer (λ vms. pure (some (map (λ o. text_or o "") vms))) s).1
        ≡ (ok (listed_names answer), s)
  asked (ok vms) s = refl
  asked (err e) s = refl

  -- If the destination lists its VMs, the new VM gets a name that none of them has; the rest of its spec
  -- stays. If the listing raises, the new VM's name is the source's with "-mig" after it, whatever VMs
  -- the destination has.
  pub ensure_unique_dest_name-NamedBy :
      (v : VmSpec) (s : State)
      → s.spec ≡ some v
      → NamedBy v (c.vms s.trace) (ensure_unique_dest_name c s)
  unfolding ensure_unique_dest_name unlisted_name the_spec attempt perform emit happen ◌>>=◌
  ensure_unique_dest_name-NamedBy v s here =
      let answer = c.vms s.trace in
      let later : State = record s {
        trace = called list_vms (outcome returned answer) ∷ s.trace;
      } in
      let listed : Act (Option (List String)) =
        attempt
          (perform list_vms returned c.vms >>= λ vms. pure (some (map (λ o. text_or o "") vms)))
          (λ exc. pure none) in
      let rest : VmSpec → Act (Unit {0}) =
        λ w. listed >>= λ l. maybe l (unlisted_name c w) (listed_name c w) in
      let named : NamedBy v answer (rest v s) =
        subst
          (λ (r : Result (Option (List String)) × State).
            NamedBy v answer (proceed r.0 (λ l. maybe l (unlisted_name c v) (listed_name c v)) r.1))
          (sym (asked answer later)) (after-NamedBy v answer later) in
      subst (λ o. NamedBy v answer (proceed (known_spec o s).0 rest (known_spec o s).1)) (sym here)
        named
