-- ===== src/Prelude/Cuts.antt =====
-- Texts cut into parts, as Python's `partition`, `split`, `splitlines` and `strip(chars)` do; `isdigit`
-- and `int` on ASCII; a stable sort by a number.
use Prim.Native.Nat.{ℕ, zero, suc, ◌+◌, ◌-◌, ◌*◌}
use Prim.Native.Char.{Char, code}
use Prim.Native.String.{String}
use mathlib.Core.Bool.{Bool, true, not, ◌&&◌, ◌||◌}
use mathlib.Core.Option.{Option, none, some}
use mathlib.Core.List.{List, [], ◌∷◌}
use text.Mathlib.Text.{◌==◌}
use pure_hypervisor_integrat.Prelude.Tests.{leb, eqb, if◌then◌else◌, maybe}
use pure_hypervisor_integrat.Prelude.Text.{drop, starts_with}

-- what stands before the first character `c` and after it, if there is one
unfoldable pub cut : ℕ → String → Option (String × String)
cut c String.[] = none
cut c (String.◌∷◌ x s) =
    let later = cut c s in
    if eqb (code x) c then some ("", s) else maybe later none (λ p. some (String.◌∷◌ x (p.0), p.1))

-- `s.split(c, 1)[0]`
unfoldable pub before : ℕ → String → String
unfolding cut
before c s = maybe (cut c s) s (λ p. p.0)

-- what stands before the last character `c` and after it: `s.rsplit(c, 1)`
unfoldable pub cut_last : ℕ → String → Option (String × String)
cut_last c String.[] = none
cut_last c (String.◌∷◌ x s) =
    let later = cut_last c s in
    maybe later (if eqb (code x) c then some ("", s) else none)
      (λ p. some (String.◌∷◌ x (p.0), p.1))

-- `s.split(c)[-1]`
unfoldable pub after_last : ℕ → String → String
unfolding cut_last
after_last c s = maybe (cut_last c s) s (λ p. p.1)

-- what follows the first `t`, a text of `n` characters, in the text
unfoldable pub after_text : ℕ → String → String → Option String
unfolding drop starts_with
after_text n t String.[] = if t == "" then some "" else none
after_text n t (String.◌∷◌ x s) =
    let later = after_text n t s in
    if starts_with (String.◌∷◌ x s) t then some (drop n (String.◌∷◌ x s)) else later

-- `s[:n]`
unfoldable pub first_chars : ℕ → String → String
first_chars zero s = ""
first_chars (suc n) String.[] = ""
first_chars (suc n) (String.◌∷◌ x s) = String.◌∷◌ x (first_chars n s)

-- a character put before the first part
abbrev pub onto : Char → List String → List String
onto x [] = String.◌∷◌ x String.[] ∷ []
onto x (p ∷ rest) = String.◌∷◌ x p ∷ rest

-- `s.split(c)`
unfoldable pub split : ℕ → String → List String
split c String.[] = "" ∷ []
split c (String.◌∷◌ x s) = let rest = split c s in if eqb (code x) c then "" ∷ rest else onto x rest

-- the characters at which `splitlines` ends a line
abbrev pub is_break : ℕ → Bool
is_break n =
    (leb 10 n && leb n 13) || ((leb 28 n && leb n 30) || (eqb n 133 || (eqb n 8232 || eqb n 8233)))

-- `s.splitlines()`; a carriage return before a line feed is no line of its own
unfoldable pub lines : String → List String
unfolding starts_with
lines String.[] = []
lines (String.◌∷◌ x s) =
    let rest = lines s in
    if eqb (code x) 13 && starts_with s "\n"
    then rest
    else if is_break (code x)
    then "" ∷ rest
    else onto x rest

module _ (p : Char → Bool) where
  -- without the characters of a kind at the start, at the end
  unfoldable pub trim_left : String → String
  trim_left String.[] = String.[]
  trim_left (String.◌∷◌ x s) = let rest = trim_left s in if p x then rest else String.◌∷◌ x s

  unfoldable pub trim_right : String → String
  trim_right String.[] = String.[]
  trim_right (String.◌∷◌ x s) =
      let rest = trim_right s in if rest == "" && p x then String.[] else String.◌∷◌ x rest

  -- `s.strip(chars)`
  unfoldable pub trim : String → String
  unfolding trim_left trim_right
  trim s = trim_right (trim_left s)

  -- whether all characters are of the kind
  unfoldable pub all_chars : String → Bool
  all_chars String.[] = true
  all_chars (String.◌∷◌ x s) = p x && all_chars s

-- a function on each character
unfoldable pub map_chars : (Char → Char) → String → String
map_chars f String.[] = String.[]
map_chars f (String.◌∷◌ x s) = String.◌∷◌ (f x) (map_chars f s)

abbrev pub decimal_char : Char → Bool
decimal_char x = leb 48 (code x) && leb (code x) 57

-- `s.isdigit()`
unfoldable pub digits_only : String → Bool
unfolding all_chars
digits_only s = not (s == "") && all_chars decimal_char s

-- the number that a text of digits stands for, after what has been read
unfoldable pub digits_number : ℕ → String → ℕ
digits_number n String.[] = n
digits_number n (String.◌∷◌ x s) = digits_number (10 * n + (code x - 48)) s

-- `int(s)` of a text of digits; another text counts as one that Python refuses
unfoldable pub int_of : String → Option ℕ
unfolding digits_only digits_number
int_of s = if digits_only s then some (digits_number 0 s) else none

module _ {A : Type 0} (key : A → ℕ) where
  -- `x` put before the first element with a key that is not below its own
  unfoldable pub put_by : A → List A → List A
  put_by x [] = x ∷ []
  put_by x (y ∷ ys) =
      let later = y ∷ put_by x ys in if leb (key x) (key y) then x ∷ y ∷ ys else later

  -- `xs.sort(key=key)`
  unfoldable pub sort_by : List A → List A
  unfolding put_by
  sort_by [] = []
  sort_by (x ∷ xs) = put_by x (sort_by xs)
