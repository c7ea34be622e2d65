-- ===== src/Prelude/Search.antt =====
-- The search for a name that is not taken among numbered names: as many rounds as there are taken names
-- are enough.
use Prim.Native.Nat.{ℕ, zero, suc, ◌≤◌, ◌<◌}
use Prim.Native.String.{String}
use mathlib.Core.Path.{◌≡◌, refl, sym, ap, ◌∙◌}
use mathlib.Core.Logic.{inl, inr}
use mathlib.Core.Bool.{true, false, not}
use mathlib.Core.List.{List, [], ◌∷◌}
use native.Mathlib.Omega.{arith}
use text.Mathlib.Text.{◌==◌}
use text.Mathlib.TextEquality.{eq_iff}
use pure_hypervisor_integrat.Prelude.Tests.{if◌then◌else◌, Bool-cases}
use pure_hypervisor_integrat.Prelude.Lists.{contains, length, select}

-- `while name(n) in taken: n += 1`, for so many rounds at most
unfoldable pub first_free : (ℕ → String) → ℕ → List String → ℕ → ℕ
first_free name zero taken n = n
first_free name (suc f) taken n =
    let next = first_free name f taken (suc n) in if contains (name n) taken then next else n

-- the names but one
others : String → List String → List String
others s = select (λ t. not (t == s))

length-others-le : (s : String) (taken : List String) → length (others s taken) ≤ length taken
unfolding others
length-others-le s [] = omega arith
length-others-le s (t ∷ taken) = ground (arith, length-others-le s taken)

length-others-lt :
    (s : String) (taken : List String)
    → contains s taken ≡ true
    → length (others s taken) < length taken
unfolding others
length-others-lt s [] h = ground arith
length-others-lt s (t ∷ taken) h =
    ground (arith, length-others-lt s taken, length-others-le s taken)

contains-others :
    (s t : String) (taken : List String)
    → (s == t) ≡ false
    → contains t (others s taken) ≡ contains t taken
unfolding others
contains-others s t [] h = refl
contains-others s t (u ∷ taken) h =
    ground (arith, contains-others s t taken, eq_iff u s, eq_iff u t, eq_iff s t)

module _ (name : ℕ → String) (distinct : (a b : ℕ) → name a ≡ name b → a ≡ b) where
  first_free-le : (f : ℕ) (taken : List String) (n : ℕ) → n ≤ first_free name f taken n
  unfolding first_free
  first_free-le zero taken n = omega arith
  first_free-le (suc f) taken n = ground (arith, first_free-le f taken (suc n))

  apart : (a b : ℕ) → a < b → (name a == name b) ≡ false
  apart a b h = ground (arith, distinct a b, eq_iff (name a) (name b))

  -- taking out the name that was tried does not change the search for the later ones
  first_free-others :
      (f : ℕ) (taken : List String) (m n : ℕ)
      → m < n
      → first_free name f (others (name m) taken) n ≡ first_free name f taken n
  unfolding first_free
  first_free-others zero taken m n h = refl
  first_free-others (suc f) taken m n h = ground (
    arith,
    first_free-others f taken m (suc n),
    contains-others (name m) (name n) taken (apart m n h),
  )

  pub first_free_lem :
      (f : ℕ) (taken : List String) (n : ℕ)
      → length taken ≤ f
      → contains (name (first_free name f taken n)) taken ≡ false
  unfolding first_free
  first_free_lem zero [] n h = refl
  first_free_lem zero (t ∷ taken) n h = absurd (omega arith)
  first_free_lem (suc f) taken n h = elim (Bool-cases (contains (name n) taken)) [
    | inr free ↦ rw (free) free
    | inl used ↦
        let fewer = length-others-lt (name n) taken used in
        let later = first_free-le f taken (suc n) in
        let found = first_free_lem f (others (name n) taken) (suc n) (omega (arith, fewer)) in
        let same =
          contains-others (name n) (name (first_free name f taken (suc n))) taken
            (apart n (first_free name f taken (suc n)) (omega (arith, later))) in
        rw (used) (
          sym same
          ∙ ap (λ k. contains (name k) (others (name n) taken))
              (sym (first_free-others f taken n (suc n) (omega arith)))
          ∙ found)
  ]
