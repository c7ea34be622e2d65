-- ===== src/Array/Size.antt =====
-- `_to_bytes` of backend/phif/flasharray/client.py. Of the texts that Python reads as a number this
-- reads the plain ones: digits, and before a unit a fraction too, whose part of a byte is cut off.
use Prim.Native.Char.{Char, code}
use pure_hypervisor_integrat.Prelude.{
  ℕ, ◌+◌, ◌-◌, ◌*◌, ◌/◌, String, ◌≡◌, refl, Bool, ◌&&◌, ◌==◌, leb, eqb, Option, none, some,
  if◌then◌else◌, maybe,
}
use pure_hypervisor_integrat.Prelude.Text.{strip}
use pure_hypervisor_integrat.Array.Io.{other_fault, Answer, done, failed}

-- a size: bytes, or a text
pub data Size : Type 0 where
  bytes : ℕ → Size
  words : String → Size

abbrev pub is_digit : Char → Bool
is_digit c = leb 48 (code c) && leb (code c) 57

-- the number that the digits of a text spell after those that have been read, if there are only digits
unfoldable pub digits_value : ℕ → String → Option ℕ
digits_value n String.[] = some n
digits_value n (String.◌∷◌ c s) =
    let more = digits_value (n * 10 + (code c - 48)) s in if is_digit c then more else none

-- the fraction's digits: their number so far, and a unit divided by ten for each of them
unfoldable pub fraction_value : ℕ → ℕ → ℕ → String → Option ℕ
fraction_value n scale unit String.[] = some (n * unit / scale)
fraction_value n scale unit (String.◌∷◌ c s) =
    let more = fraction_value (n * 10 + (code c - 48)) (scale * 10) unit s in
    if is_digit c then more else none

-- `int(float(s) * unit)`, after the digits that have been read
unfoldable pub scaled : ℕ → ℕ → String → Option ℕ
unfolding fraction_value
scaled unit n String.[] = some (n * unit)
scaled unit n (String.◌∷◌ c s) =
    let more = scaled unit (n * 10 + (code c - 48)) s in
    let fraction = fraction_value n 1 unit s in
    if is_digit c then more else if eqb (code c) 46 then fraction else none

-- `s[-1]` and `s[:-1]`
unfoldable pub split_last : Char → String → String × Char
split_last c String.[] = (String.[], c)
split_last c (String.◌∷◌ d s) = let (front, last) = split_last d s in (String.◌∷◌ c front, last)

-- `units`, for a letter in either case (`upper`)
abbrev pub unit_of : Char → Option ℕ
unit_of c =
    let n = code c in
    if eqb n b'K'
    then some 1024
    else if eqb n b'k'
    then some 1024
    else if eqb n b'M'
    then some 1048576
    else if eqb n b'm'
    then some 1048576
    else if eqb n b'G'
    then some 1073741824
    else if eqb n b'g'
    then some 1073741824
    else if eqb n b'T'
    then some 1099511627776
    else if eqb n b't'
    then some 1099511627776
    else if eqb n b'P'
    then some 1125899906842624
    else if eqb n b'p'
    then some 1125899906842624
    else none

abbrev pub bad_number : Answer ℕ
bad_number = failed (other_fault "ValueError")

unfoldable pub text_bytes : String → Option ℕ
unfolding digits_value scaled split_last
text_bytes String.[] = none
text_bytes (String.◌∷◌ c s) =
    let (front, last) = split_last c s in
    let plain = digits_value 0 (String.◌∷◌ c s) in
    maybe (unit_of last) plain (λ unit. if front == "" then none else scaled unit 0 front)

-- `_to_bytes`
unfoldable pub to_bytes : Size → Answer ℕ
unfolding text_bytes
to_bytes (bytes n) = done n
to_bytes (words s) = maybe (text_bytes (strip s)) bad_number done

-- `FA_MIN_VOLUME_BYTES`
abbrev pub fa_min_volume_bytes : ℕ
fa_min_volume_bytes = 1048576

half_a_kibibyte : to_bytes (words " 1.5k ") ≡ done 1536
unfolding to_bytes strip
half_a_kibibyte = refl

twenty_gibibytes : to_bytes (words "20G") ≡ done 21474836480
unfolding to_bytes strip
twenty_gibibytes = refl

no_unit : to_bytes (words "512") ≡ done 512
unfolding to_bytes strip
no_unit = refl
