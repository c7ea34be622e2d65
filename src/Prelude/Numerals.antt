-- ===== src/Prelude/Numerals.antt =====
-- Decimal numerals can be read back, so different numbers have different numerals.
use Prim.Native.Nat.{ℕ, zero, suc, ◌+◌, ◌*◌, ◌-◌, ◌/◌, ◌%◌, ◌<◌}
use Prim.Native.Char.{code}
use Prim.Native.String.{String, ◌++◌}
use mathlib.Core.Path.{◌≡◌, sym, ap, ◌∙◌}
use mathlib.Core.Logic.{inl, inr}
use native.Mathlib.Omega.{arith}
use text.Mathlib.TextLemmas.{nil-append, cons-append, append_cancel_left}
use pure_hypervisor_integrat.Prelude.Tests.{ltb, Bool-cases}
use pure_hypervisor_integrat.Prelude.Text.{digit, decimal, str}

-- the number that a row of digits stands for, after what has been read
value : ℕ → String → ℕ
value acc String.[] = acc
value acc (String.◌∷◌ c s) = value (10 * acc + (code c - 48)) s

value-append : (acc : ℕ) (s t : String) → value acc (s ++ t) ≡ value (value acc s) t
unfolding value
value-append acc String.[] t = ap (value acc) (nil-append t)
value-append acc (String.◌∷◌ c s) t =
    ap (value acc) (cons-append c s t) ∙ value-append (10 * acc + (code c - 48)) s t

value-digit : (acc d : ℕ) → d < 10 → value acc (digit d) ≡ 10 * acc + d
unfolding value
value-digit acc zero h = omega arith
value-digit acc (suc zero) h = omega arith
value-digit acc (suc (suc zero)) h = omega arith
value-digit acc (suc (suc (suc zero))) h = omega arith
value-digit acc (suc (suc (suc (suc zero)))) h = omega arith
value-digit acc (suc (suc (suc (suc (suc zero))))) h = omega arith
value-digit acc (suc (suc (suc (suc (suc (suc zero)))))) h = omega arith
value-digit acc (suc (suc (suc (suc (suc (suc (suc zero))))))) h = omega arith
value-digit acc (suc (suc (suc (suc (suc (suc (suc (suc zero)))))))) h = omega arith
value-digit acc (suc (suc (suc (suc (suc (suc (suc (suc (suc zero))))))))) h = omega arith
value-digit acc (suc (suc (suc (suc (suc (suc (suc (suc (suc (suc n)))))))))) h =
    absurd (omega arith)

value-decimal : (f n : ℕ) → n < f → value 0 (decimal f n) ≡ n
unfolding decimal
value-decimal zero n h = elim h [ ]
value-decimal (suc f) n h = elim (Bool-cases (ltb n 10)) [
  | inl small ↦ rw (small) (value-digit 0 n (ground arith) ∙ omega arith)
  | inr large ↦
      let above : 9 < n = ground arith in
      let shorter = value-decimal f (n / 10) (omega (arith, above)) in
      let last = value-digit (n / 10) (n % 10) (omega arith) in
      rw (large) (
        value-append 0 (decimal f (n / 10)) (digit (n % 10))
        ∙ ap (λ v. value v (digit (n % 10))) shorter
        ∙ last
        ∙ omega arith)
]

pub str-injective : (a b : ℕ) → str a ≡ str b → a ≡ b
unfolding str
str-injective a b q =
    sym (value-decimal (suc a) a (omega arith))
    ∙ ap (value 0) q
    ∙ value-decimal (suc b) b (omega arith)

-- f"{base}-{n}" and the like: a numeral after a text
pub numeral-injective : (base : String) (a b : ℕ) → base ++ str a ≡ base ++ str b → a ≡ b
numeral-injective base a b q = str-injective a b (append_cancel_left base (str a) (str b) q)
