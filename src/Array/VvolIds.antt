-- ===== src/Array/VvolIds.antt =====
-- The ids that reach a filter of the array: theorems about `find_volume_by_vvol_id`.
use Prim.Native.Char.{Char, code}
use mathlib.Core.List.{append_assoc}
use pure_hypervisor_integrat.Prelude.{
  ℕ, zero, suc, String, ◌≡◌, refl, sym, ap, ◌∙◌, subst, Bool, true, false, not, ◌&&◌, ◌==◌, eqb,
  Option, none, some, List, [], ◌∷◌, ◌++◌, All, All-append, if◌then◌else◌, maybe, arith, Bool-cases,
  inl, inr, eq_iff,
}
use pure_hypervisor_integrat.Prelude.Text.{strip, lower, includes, starts_with, drop}
use pure_hypervisor_integrat.Array.Io.{api_error, other_fault, Answer, done, failed, by_end}
use pure_hypervisor_integrat.Array.Rest.{
  Request, Item, Requests, Array, call, get_volume_tags, get_volumes_named,
}
use pure_hypervisor_integrat.Array.VolumeCalls.{
  is_hex, after_hex, after_group, is_vvol_id, vvol_filter, vasa_tag_namespace, absent_or,
  get_volume, live_volume, first_tagged, find_volume_by_vvol_id,
}

-- the text has no quote
unfoldable pub Unquoted : String → Type 0
Unquoted String.[] = Unit
Unquoted (String.◌∷◌ c s) = (eqb (code c) 39 ≡ false) × Unquoted s

hex_apart : (c : Char) → is_hex c ≡ true → eqb (code c) 39 ≡ false
hex_apart c q = ground arith

after_hex-Unquoted :
    (n : ℕ) (s rest : String) → after_hex n s ≡ some rest → Unquoted rest → Unquoted s
unfolding after_hex Unquoted
after_hex-Unquoted zero s rest q u = let same : s ≡ rest = cc in subst Unquoted (sym same) u
after_hex-Unquoted (suc n) String.[] rest q u = tt
after_hex-Unquoted (suc n) (String.◌∷◌ c s) rest q u = elim (Bool-cases (is_hex c)) [
  | inl hex ↦ (
    hex_apart c hex,
    after_hex-Unquoted n s rest (subst (λ b. (if b then after_hex n s else none) ≡ some rest) hex q)
        u,
  )
  | inr other ↦
      let wrong : none ≡ some rest =
        subst (λ b. (if b then after_hex n s else none) ≡ some rest) other q in
      cc
]

after_group-Unquoted :
    (n : ℕ) (s rest : String) → after_group n s ≡ some rest → Unquoted rest → Unquoted s
unfolding Unquoted
after_group-Unquoted n String.[] rest q u = tt
after_group-Unquoted n (String.◌∷◌ c s) rest q u = elim (Bool-cases (eqb (code c) 45)) [
  | inl dash ↦ (
    dash_apart c dash,
    after_hex-Unquoted n s rest
        (subst (λ b. (if b then after_hex n s else none) ≡ some rest) dash q) u,
  )
  | inr other ↦
      let wrong : none ≡ some rest =
        subst (λ b. (if b then after_hex n s else none) ≡ some rest) other q in
      cc
]
  where
    dash_apart : (c : Char) → eqb (code c) 45 ≡ true → eqb (code c) 39 ≡ false
    dash_apart c q = ground arith

size : String → ℕ
size String.[] = zero
size (String.◌∷◌ c s) = suc (size s)

and_split : (a b : Bool) → (a && b) ≡ true → (a ≡ true) × (b ≡ true)
and_split true b q = (refl, q)
and_split false b q = cc

starts_with-Unquoted :
    (s t : String) → starts_with s t ≡ true → Unquoted t → Unquoted (drop (size t) s) → Unquoted s
unfolding starts_with drop size Unquoted
starts_with-Unquoted s String.[] q ut us = us
starts_with-Unquoted String.[] (String.◌∷◌ d t) q ut us = tt
starts_with-Unquoted (String.◌∷◌ c s) (String.◌∷◌ d t) q ut us =
    let (same, rest) = and_split (eqb (code c) (code d)) (starts_with s t) q in
    (same_apart c d same ut.0, starts_with-Unquoted s t rest ut.1 us)
  where
    same_apart :
        (c d : Char)
        → eqb (code c) (code d) ≡ true
        → eqb (code d) 39 ≡ false
        → eqb (code c) 39 ≡ false
    same_apart c d q u = ground arith

maybe_split :
    (o : Option String) (f : String → Bool)
    → maybe o false f ≡ true
    → (a : String) × (o ≡ some a) × (f a ≡ true)
maybe_split none f q = cc
maybe_split (some a) f q = (a, refl, q)

empty-Unquoted : (e : String) → e ≡ "" → Unquoted e
unfolding Unquoted
empty-Unquoted e q = subst Unquoted (sym q) tt

prefix-Unquoted : Unquoted "rfc4122."
unfolding Unquoted
prefix-Unquoted = (refl, (refl, (refl, (refl, (refl, (refl, (refl, (refl, tt))))))))

is_vvol_id-Unquoted : (s : String) → is_vvol_id s ≡ true → Unquoted s
unfolding is_vvol_id size
is_vvol_id-Unquoted s q =
    let (start, rest) = and_split (starts_with s "rfc4122.") _ q in
    let (a, qa, ra) = maybe_split (after_hex 8 (drop 8 s)) _ rest in
    let (b, qb, rb) = maybe_split (after_group 4 a) _ ra in
    let (c, qc, rc) = maybe_split (after_group 4 b) _ rb in
    let (d, qd, rd) = maybe_split (after_group 4 c) _ rc in
    let (e, qe, re) = maybe_split (after_group 12 d) _ rd in
    starts_with-Unquoted s "rfc4122." start prefix-Unquoted (
      after_hex-Unquoted 8 (drop 8 s) a qa (
        after_group-Unquoted 4 a b qb (
          after_group-Unquoted 4 b c qc (
            after_group-Unquoted 4 c d qd
              (after_group-Unquoted 12 d e qe (empty-Unquoted e ((eq_iff e "").0 re)))))))

-- a request for tags has a filter for an id without a quote
abbrev pub Quotes : Request → Type 0
Quotes (get_volume_tags namespace filter) = (id : String) × (filter ≡ vvol_filter id) × Unquoted id
Quotes _ = Unit

-- the requests that were added to the past, the newest first
abbrev pub Added : (Request → Type 0) → Requests → Requests → Type 0
Added P past after = (new : Requests) × (after ≡ new ++ past) × All P new

module _ (array : Array) where
  absent_or_asks :
      (name : String) (a : Answer (List Item)) (past : Requests)
      → (absent_or array name a past).1 ≡ past
  unfolding absent_or
  absent_or_asks name (done items) past = refl
  absent_or_asks name (failed (api_error e)) past =
      elim (Bool-cases (includes (lower e) "does not exist")) [
        | inl absent ↦ rw absent refl
        | inr other ↦ rw other refl
      ]
  absent_or_asks name (failed (other_fault e)) past = refl

  get_volume_asks :
      (name : String) (past : Requests)
      → (get_volume array name past).1 ≡ get_volumes_named name ∷ past
  unfolding get_volume call
  get_volume_asks name past = absent_or_asks name _ (get_volumes_named name ∷ past)

  live_volume-Added :
      (o : Option String) (past : Requests) → Added Quotes past (live_volume array o past).1
  unfolding live_volume
  live_volume-Added none past = ([], refl, tt)
  live_volume-Added (some name) past =
      by_end (get_volume array name) _ past (λ r. Added Quotes past r.1)
        (λ v past' q. (
          get_volumes_named name ∷ [],
          ap (λ r. r.1) (sym q) ∙ get_volume_asks name past,
          (tt, tt),
        ))
        (λ e past' q. (
          get_volumes_named name ∷ [],
          ap (λ r. r.1) (sym q) ∙ get_volume_asks name past,
          (tt, tt),
        ))

  -- Whatever id `find_volume_by_vvol_id` is given, a request for tags that it makes has the filter of an
  -- id without a quote, so that no caller's text gets out of the value in the filter.
  pub find_volume_by_vvol_id-Added :
      (vvol_id : String) (past : Requests)
      → Added Quotes past (find_volume_by_vvol_id array vvol_id past).1
  unfolding find_volume_by_vvol_id call
  find_volume_by_vvol_id-Added vvol_id past =
      elim (Bool-cases (not (strip vvol_id == "") && is_vvol_id (strip vvol_id))) [
        | inl good ↦ rw good (
            by_end (call array tags) _ past (λ r. Added Quotes past r.1)
              (λ items past' q.
                let (new, grown, safe) =
                  live_volume-Added (first_tagged (strip vvol_id) items) past' in
                (
                  new ++ (tags ∷ []),
                  grown
                      ∙ ap (λ p. new ++ p) (ap (λ r. r.1) (sym q))
                      ∙ sym (append_assoc new (tags ∷ []) past),
                  All-append Quotes new (tags ∷ []) safe ((strip vvol_id, refl, clean good), tt),
                ))
              (λ e past' q.
                (tags ∷ [], ap (λ r. r.1) (sym q), ((strip vvol_id, refl, clean good), tt))))
        | inr bad ↦ rw bad ([], refl, tt)
      ]
    where
      tags : Request
      tags = get_volume_tags vasa_tag_namespace (vvol_filter (strip vvol_id))

      clean :
          (not (strip vvol_id == "") && is_vvol_id (strip vvol_id)) ≡ true
          → Unquoted (strip vvol_id)
      clean good =
          is_vvol_id-Unquoted (strip vvol_id) (and_split (not (strip vvol_id == "")) _ good).1
