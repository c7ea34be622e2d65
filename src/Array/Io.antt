-- ===== src/Array/Io.antt =====
-- Calls of an array as actions on a state. An exception is a `FlashArrayApiError` or another one, with
-- its text.
use pure_hypervisor_integrat.Prelude.{String, ◌≡◌, refl}

pub data Fault : Type 0 where
  api_error : String → Fault
  other_fault : String → Fault

pub data Answer (A : Type 0) : Type 0 where
  done : A → Answer A
  failed : Fault → Answer A

-- `try: x = f(a) except Exception: x = b`
abbrev pub answered : {A B : Type 0} → B → (A → B) → Answer A → B
answered b f (done a) = f a
answered b f (failed e) = b

abbrev pub Io : Type 0 → Type 0 → Type 0
Io S A = S → Answer A × S

module _ {S A : Type 0} where
  abbrev pub pure : A → Io S A
  pure a s = (done a, s)

  abbrev pub raise : Fault → Io S A
  raise e s = (failed e, s)

module _ {S A B : Type 0} where
  abbrev pub proceed : Answer A → (A → Io S B) → Io S B
  proceed (done a) f s = f a s
  proceed (failed e) f s = (failed e, s)

  infixl 10 ◌>>=◌
  unfoldable pub ◌>>=◌ : Io S A → (A → Io S B) → Io S B
  ◌>>=◌ m f s = let (r, s') = m s in proceed r f s'

infixl 10 ◌>>◌
abbrev pub ◌>>◌ : {S B : Type 0} → Io S (Unit {0}) → Io S B → Io S B
m >> k = m >>= λ _. k

-- A fact about what a bind comes to, by the way in which its first part ends.
module _ {S A B : Type 0} (m : Io S A) (f : A → Io S B) (s : S) (K : Answer B × S → Type 0) where
  ended :
      (r : Answer A × S)
      → m s ≡ r
      → ((a : A) (s' : S) → m s ≡ (done a, s') → K (f a s'))
      → ((e : Fault) (s' : S) → m s ≡ (failed e, s') → K (failed e, s'))
      → K (proceed r.0 f r.1)
  ended (done a, s') q good bad = good a s' q
  ended (failed e, s') q good bad = bad e s' q

  pub by_end :
      ((a : A) (s' : S) → m s ≡ (done a, s') → K (f a s'))
      → ((e : Fault) (s' : S) → m s ≡ (failed e, s') → K (failed e, s'))
      → K ((m >>= f) s)
  unfolding ◌>>=◌
  by_end good bad = ended (m s) refl good bad
