-- ===== src/Api/Http.antt =====
-- A handler's end: an answer, or an HTTPException with its status and detail.
use pure_hypervisor_integrat.Prelude.{ℕ, String, Bool, true, false, if◌then◌else◌}

pub data Response (A : Type 0) : Type 0 where
  accepted : A → Response A
  refused : ℕ → String → Response A

infixl 10 ◌>>=◌
unfoldable pub ◌>>=◌ : {A B : Type 0} → Response A → (A → Response B) → Response B
accepted a >>= f = f a
refused status detail >>= f = refused status detail

-- `if not test: raise HTTPException(status, detail)`
abbrev pub insist : Bool → ℕ → String → Response (Unit {0})
insist test status detail = if test then accepted tt else refused status detail

abbrev pub is_accepted : {A : Type 0} → Response A → Bool
is_accepted (accepted a) = true
is_accepted (refused status detail) = false
