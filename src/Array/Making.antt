-- ===== src/Array/Making.antt =====
-- What `create_host` of `MockFlashArrayClient` of backend/phif/flasharray/client.py makes of a host: it has
-- the initiators that it is given, and keeps those that it had.
use pure_hypervisor_integrat.Prelude.{
  String, ◌≡◌, refl, ◌∙◌, ap, true, ◌==◌, eq_iff, some, List, [], ◌∷◌, ◌++◌, All, contains,
  if◌then◌else◌, lookup, arith, Bool-cases, inl, inr,
}
use pure_hypervisor_integrat.Prelude.Dict.{get_or, lookup-assign}
use pure_hypervisor_integrat.Array.Hosts.{Initiators}
use pure_hypervisor_integrat.Array.Mock.{Mock}
use pure_hypervisor_integrat.Array.MockHosts.{merge, create_host, no_initiators}
use pure_hypervisor_integrat.Array.Register.{HostSpec}

contains-append_left :
    (x : String) (xs ys : List String) → contains x xs ≡ true → contains x (xs ++ ys) ≡ true
contains-append_left x [] ys q = ground arith
contains-append_left x (y ∷ xs) ys q = ground (arith, contains-append_left x xs ys)

contains-append_last : (x : String) (xs : List String) → contains x (xs ++ (x ∷ [])) ≡ true
contains-append_last x [] = ground (arith, eq_iff x x)
contains-append_last x (y ∷ xs) = ground (arith, contains-append_last x xs)

added :
    (v : String) (xs : List String)
    → contains v (if contains v xs then xs else xs ++ (v ∷ [])) ≡ true
added v xs = ground (arith, contains-append_last v xs)

widened :
    (x v : String) (xs : List String)
    → contains x xs ≡ true
    → contains x (if contains v xs then xs else xs ++ (v ∷ [])) ≡ true
widened x v xs q = ground (arith, contains-append_left x xs (v ∷ []))

contains-merge :
    (x : String) (xs vals : List String) → contains x xs ≡ true → contains x (merge xs vals) ≡ true
unfolding merge
contains-merge x xs [] q = q
contains-merge x xs (v ∷ vals) q =
    contains-merge x (if contains v xs then xs else xs ++ (v ∷ [])) vals (widened x v xs q)

pub merge-has : (xs vals : List String) → All (λ v. contains v (merge xs vals) ≡ true) vals
unfolding merge
merge-has xs [] = tt
merge-has xs (v ∷ vals) = (
  contains-merge v (if contains v xs then xs else xs ++ (v ∷ [])) vals (added v xs),
  merge-has (if contains v xs then xs else xs ++ (v ∷ [])) vals,
)

-- a host has all these initiators
abbrev pub Has : Initiators → Initiators → Type 0
Has host i =
    All (λ x. contains x host.iqns ≡ true) i.iqns
    × All (λ x. contains x host.wwns ≡ true) i.wwns
    × All (λ x. contains x host.nqns ≡ true) i.nqns

-- there is a host of the entry's name, which has the entry's initiators
abbrev pub Made : HostSpec → Mock → Type 0
Made spec s =
    (host : Initiators) × (lookup spec.name s.hosts ≡ some host) × Has host spec.initiators

All-merge :
    (xs vals wanted : List String)
    → All (λ x. contains x xs ≡ true) wanted
    → All (λ x. contains x (merge xs vals) ≡ true) wanted
All-merge xs vals [] all = tt
All-merge xs vals (w ∷ wanted) (one, all) =
    (contains-merge w xs vals one, All-merge xs vals wanted all)

pub created-Made :
    (spec : HostSpec) (s : Mock) → Made spec (create_host spec.name spec.initiators s)
unfolding create_host
created-Made spec s =
    let h = get_or no_initiators (lookup spec.name s.hosts) in
    let i = spec.initiators in
    (
      _,
      lookup-assign spec.name spec.name _ s.hosts ∙ rw ((eq_iff spec.name spec.name).1 refl) refl,
      (merge-has h.iqns i.iqns, merge-has h.wwns i.wwns, merge-has h.nqns i.nqns),
    )

pub create_host-Made :
    (spec : HostSpec) (name : String) (i : Initiators) (s : Mock)
    → Made spec s
    → Made spec (create_host name i s)
unfolding create_host
create_host-Made spec name i s (host, here, (a, b, c)) = elim (Bool-cases (name == spec.name)) [
  | inr other ↦ (host, lookup-assign name spec.name _ s.hosts ∙ rw (other) here, (a, b, c))
  | inl same ↦
      let old : get_or no_initiators (lookup name s.hosts) ≡ host =
        ap (λ n. get_or no_initiators (lookup n s.hosts)) ((eq_iff name spec.name).0 same)
        ∙ ap (get_or no_initiators) here in
      (
        record {
          iqns = merge host.iqns i.iqns;
          wwns = merge host.wwns i.wwns;
          nqns = merge host.nqns i.nqns;
        },
        lookup-assign name spec.name _ s.hosts ∙ rw (same, old) refl,
        (
          All-merge host.iqns i.iqns spec.initiators.iqns a,
          All-merge host.wwns i.wwns spec.initiators.wwns b,
          All-merge host.nqns i.nqns spec.initiators.nqns c,
        ),
      )
]
