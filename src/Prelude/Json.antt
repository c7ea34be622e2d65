-- ===== src/Prelude/Json.antt =====
-- Python's values as JSON has them: what the dictionaries of requests, of specs and of the database's
-- JSON columns hold. Numbers are the non-negative ones.
use pure_hypervisor_integrat.Prelude.Tests.{if◌then◌else◌, eqb}
use Prim.Native.Nat.{ℕ}
use Prim.Native.String.{String}
use mathlib.Core.Path.{◌≡◌, refl}
use mathlib.Core.Bool.{Bool, true, false, not, ◌&&◌}
use mathlib.Core.Option.{Option, none, some}
use native.Mathlib.Omega.{arith}
use text.Mathlib.Text.{◌==◌}
use text.Mathlib.TextEquality.{eq_iff}

mutual
  pub data Value : Type 0 where
    json_null : Value
    json_bool : Bool → Value
    json_number : ℕ → Value
    json_text : String → Value
    json_list : Values → Value
    json_dict : Fields → Value

  pub data Values : Type 0 where
    no_values : Values
    more_values : Value → Values → Values

  pub data Fields : Type 0 where
    no_fields : Fields
    more_fields : String → Value → Fields → Fields

-- `d.get(key)`
unfoldable pub get : String → Fields → Option Value
get key no_fields = none
get key (more_fields name v d) = let rest = get key d in if name == key then some v else rest

-- `d[key] = v`
unfoldable pub put : String → Value → Fields → Fields
put key v no_fields = more_fields key v no_fields
put key v (more_fields name w d) =
    let rest = more_fields name w (put key v d) in if name == key then more_fields key v d else rest

-- `bool(v)`
abbrev pub truth : Value → Bool
truth json_null = false
truth (json_bool b) = b
truth (json_number n) = not (eqb n 0)
truth (json_text s) = not (s == "")
truth (json_list no_values) = false
truth (json_list (more_values v vs)) = true
truth (json_dict no_fields) = false
truth (json_dict (more_fields k v d)) = true

-- `bool(d.get(key))`
unfoldable pub flagged : String → Fields → Bool
flagged key d = elim (get key d) [ none ↦ false | some v ↦ truth v ]

-- `{**d, **e}`; the order of its keys is another one
unfoldable pub merged : Fields → Fields → Fields
merged d no_fields = d
merged d (more_fields key v e) = put key v (merged d e)

-- `v == w`, for dictionaries whose keys are in one order
unfoldable mutual
  pub same_value : Value → Value → Bool
  same_value json_null json_null = true
  same_value (json_bool true) (json_bool c) = c
  same_value (json_bool false) (json_bool c) = not c
  same_value (json_number n) (json_number m) = eqb n m
  same_value (json_text s) (json_text t) = s == t
  same_value (json_list vs) (json_list ws) = same_values vs ws
  same_value (json_dict d) (json_dict e) = same_fields d e
  same_value _ _ = false

  pub same_values : Values → Values → Bool
  same_values no_values no_values = true
  same_values (more_values v vs) (more_values w ws) = same_value v w && same_values vs ws
  same_values _ _ = false

  pub same_fields : Fields → Fields → Bool
  same_fields no_fields no_fields = true
  same_fields (more_fields k v d) (more_fields l w e) =
      k == l && (same_value v w && same_fields d e)
  same_fields _ _ = false

mutual
  unfolding same_value same_values same_fields

  pub same_value_refl : (v : Value) → same_value v v ≡ true
  same_value_refl json_null = refl
  same_value_refl (json_bool true) = refl
  same_value_refl (json_bool false) = refl
  same_value_refl (json_number n) = ground arith
  same_value_refl (json_text s) = (eq_iff s s).1 refl
  same_value_refl (json_list vs) = same_values_refl vs
  same_value_refl (json_dict d) = same_fields_refl d

  same_values_refl : (vs : Values) → same_values vs vs ≡ true
  same_values_refl no_values = refl
  same_values_refl (more_values v vs) = ground (arith, same_value_refl v, same_values_refl vs)

  same_fields_refl : (d : Fields) → same_fields d d ≡ true
  same_fields_refl no_fields = refl
  same_fields_refl (more_fields k v d) =
      ground (arith, eq_iff k k, same_value_refl v, same_fields_refl d)

pub get-put :
    (asked key : String) (v : Value) (d : Fields)
    → get asked (put key v d) ≡ (if key == asked then some v else get asked d)
unfolding get put
get-put asked key v no_fields = ground arith
get-put asked key v (more_fields name w d) =
    ground (arith, get-put asked key v d, eq_iff name key, eq_iff key asked, eq_iff name asked)

pub get-merged :
    (asked : String) (d e : Fields)
    → get asked (merged d e) ≡ elim (get asked e) [ none ↦ get asked d | some v ↦ some v ]
unfolding merged get
get-merged asked d no_fields = refl
get-merged asked d (more_fields key v e) =
    ground (arith, get-put asked key v (merged d e), get-merged asked d e)
