-- ===== src/Xcpng/Grouping.antt =====
-- That the records of `xe`'s outputs are put together as they were printed.
use pure_hypervisor_integrat.Prelude.{
  String, ◌≡◌, refl, sym, ap, ◌∙◌, Bool, true, false, not, ◌&&◌, ◌==◌, List, [], ◌∷◌, ◌++◌, All,
  any, is_empty, if◌then◌else◌, eq_iff, arith,
}
use pure_hypervisor_integrat.Prelude.Dict.{assign}
use pure_hypervisor_integrat.Xcpng.Records.{Record, grouped}
use mathlib.Core.List.{append_assoc, append-nil}

-- the key is one of the fields'
abbrev pub has : String → Record → Bool
has key fields = any (λ f. f.0 == key) fields

-- each key stands once
abbrev pub distinct : Record → Bool
distinct [] = true
distinct ((key, val) ∷ fields) = not (has key fields) && distinct fields

-- a record as `xe` prints it: its uuid first, then other fields
abbrev pub IsRecord : Record → Type 0
IsRecord [] = ⊥
IsRecord ((key, val) ∷ fields) = (key ≡ "uuid") × (distinct ((key, val) ∷ fields) ≡ true)

-- the fields of the records, one after the other
abbrev pub flat : List Record → List (String × String)
flat [] = []
flat (r ∷ rs) = r ++ flat rs

assign-has :
    (key val : String) (cur : Record)
    → has key cur ≡ false
    → assign key val cur ≡ cur ++ ((key, val) ∷ [])
unfolding assign
assign-has key val [] h = refl
assign-has key val ((k, v) ∷ cur) h = ground (arith, assign-has key val cur)

has-append :
    (key : String) (xs ys : Record) → has key (xs ++ ys) ≡ (if has key xs then true else has key ys)
has-append key [] ys = refl
has-append key ((j, w) ∷ xs) ys = ground (arith, has-append key xs ys)

distinct-apart :
    (key val : String) (xs ys : Record)
    → distinct (xs ++ ((key, val) ∷ ys)) ≡ true
    → has key xs ≡ false
distinct-apart key val [] ys h = refl
distinct-apart key val ((j, w) ∷ xs) ys h = ground (
  arith,
  distinct-apart key val xs ys,
  has-append j xs ((key, val) ∷ ys),
  eq_iff key j,
  eq_iff j key,
)

-- the further fields of a record that has been begun
grouped-append :
    (cur fields more : Record)
    → is_empty cur ≡ false
    → distinct (cur ++ fields) ≡ true
    → has "uuid" fields ≡ false
    → grouped cur (fields ++ more) ≡ grouped (cur ++ fields) more
unfolding grouped
grouped-append cur [] more full once other = ap (λ r. grouped r more) (sym (append-nil cur))
grouped-append cur ((key, val) ∷ fields) more full once other =
    let here : (key == "uuid") ≡ false = ground (arith, other) in
    rw (here) (
      ap (λ r. grouped r (fields ++ more))
        (assign-has key val cur (distinct-apart key val cur fields once))
      ∙ grouped-append (cur ++ ((key, val) ∷ [])) fields more (longer cur)
          (ap distinct (append_assoc cur ((key, val) ∷ []) fields) ∙ once) (ground (arith, other))
      ∙ ap (λ r. grouped r more) (append_assoc cur ((key, val) ∷ []) fields))
  where
    longer : (r : Record) → is_empty (r ++ ((key, val) ∷ [])) ≡ false
    longer [] = refl
    longer (f ∷ r) = refl

-- the records after one that has been begun
grouped-flat_after :
    (cur : Record) (rs : List Record)
    → is_empty cur ≡ false
    → All IsRecord rs
    → grouped cur (flat rs) ≡ cur ∷ rs
unfolding grouped assign
grouped-flat_after cur [] full good = rw (full) refl
grouped-flat_after cur ([] ∷ rs) full good = elim (good.0) [ ]
grouped-flat_after cur (((key, val) ∷ fields) ∷ rs) full ((q, once), good) =
    rw (q, full)
      (ap (λ later. cur ∷ later)
        (grouped-append (("uuid", val) ∷ []) fields (flat rs) refl
            (ap (λ k. distinct ((k, val) ∷ fields)) (sym q) ∙ once) (ground (arith, once, q))
          ∙ grouped-flat_after (("uuid", val) ∷ fields) rs refl good))

-- Records that each have their uuid first and each key once, printed field by field one after the other,
-- are put together again as they were.
pub grouped-flat : (rs : List Record) → All IsRecord rs → grouped [] (flat rs) ≡ rs
unfolding grouped assign
grouped-flat [] good = refl
grouped-flat ([] ∷ rs) good = elim (good.0) [ ]
grouped-flat (((key, val) ∷ fields) ∷ rs) ((q, once), good) = rw (q) (
    grouped-append (("uuid", val) ∷ []) fields (flat rs) refl
      (ap (λ k. distinct ((k, val) ∷ fields)) (sym q) ∙ once) (ground (arith, once, q))
    ∙ grouped-flat_after (("uuid", val) ∷ fields) rs refl good)
