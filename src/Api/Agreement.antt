-- ===== src/Api/Agreement.antt =====
-- The list of destinations and the test of a pair agree: theorems about `migration_destinations` and
-- `_validate_pair`.
use pure_hypervisor_integrat.Prelude.{
  String, ◌≡◌, refl, Bool, true, false, not, ◌&&◌, ◌||◌, ◌==◌, none, some, List, [], ◌∷◌, map,
  select, any, text_or, lookup, Bool-cases, inl, inr, eq_iff, arith,
}
use pure_hypervisor_integrat.Prelude.Dict.{lookup-assign}
use pure_hypervisor_integrat.Api.Http.{is_accepted, ◌>>=◌}
use pure_hypervisor_integrat.Api.Pairs.{
  Hypervisor, Site, unbuilt, arrayless, reached, leads_to, same_array, connection_status,
  validate_pair,
}
use pure_hypervisor_integrat.Api.Destinations.{
  Candidate, Names, name_found, connections_found, dest_array_name, over_replication, judged,
  destinations, migration_destinations,
}

-- an array that answers has a name
abbrev pub IsNamed : Site → Type 0
IsNamed (reached (some name) conns) = (name == "") ≡ false
IsNamed (reached none conns) = Unit
IsNamed unbuilt = Unit
IsNamed arrayless = Unit

-- the test of `migration_destinations` for a connection, and that of `_array_connection_status`
connected_alike :
    (source dest : Site)
    → IsNamed dest
    → (not (name_found dest == "") && any (leads_to (name_found dest)) (connections_found source))
      ≡ (connection_status source dest).0
unfolding connection_status
connected_alike unbuilt unbuilt named = refl
connected_alike unbuilt arrayless named = refl
connected_alike unbuilt (reached none other) named = refl
connected_alike unbuilt (reached (some name) other) named = rw (named) refl
connected_alike arrayless unbuilt named = refl
connected_alike arrayless arrayless named = refl
connected_alike arrayless (reached none other) named = refl
connected_alike arrayless (reached (some name) other) named = rw (named) refl
connected_alike (reached n none) unbuilt named = refl
connected_alike (reached n none) arrayless named = refl
connected_alike (reached n none) (reached none other) named = refl
connected_alike (reached n none) (reached (some name) other) named = rw (named) refl
connected_alike (reached n (some conns)) unbuilt named = refl
connected_alike (reached n (some conns)) arrayless named = refl
connected_alike (reached n (some conns)) (reached none other) named = refl
connected_alike (reached n (some conns)) (reached (some name) other) named = rw (named) refl

module _ (supports : String → Bool) (site : Hypervisor → Site)
    (same_name : (g h : Hypervisor)
      → same_array g h ≡ true
      → name_found (site g) ≡ name_found (site h))
    (named : (h : Hypervisor) → IsNamed (site h)) where
  -- what the dictionary of names has is what each hypervisor of the array would find
  abbrev Known : Names → Type 0
  Known names =
      (h : Hypervisor) (name : String)
      → lookup (text_or h.array_id "") names ≡ some name
      → name_found (site h) ≡ name

  found_name :
      (hv : Hypervisor) (names : Names)
      → Known names
      → (dest_array_name supports site hv names).0 ≡ name_found (site hv)
  unfolding dest_array_name
  found_name hv names known = grind (arith, known hv)

  found_Known :
      (hv : Hypervisor) (names : Names)
      → Known names
      → Known ((dest_array_name supports site hv names).1)
  unfolding dest_array_name
  found_Known hv names known h name = grind (
    arith,
    known h name,
    same_name hv h,
    lookup-assign (text_or hv.array_id "") (text_or h.array_id "") (name_found (site hv)) names,
  )

  judged-Known :
      (source hv : Hypervisor) (names : Names)
      → Known names
      → Known ((judged supports site source hv names).1)
  unfolding judged
  judged-Known source hv names known h name =
      ground (arith, known h name, found_Known hv names known h name)

  judged_id :
      (source hv : Hypervisor) (names : Names) → (judged supports site source hv names).0.id ≡ hv.id
  unfolding judged over_replication
  judged_id source hv names = ground arith

  -- an entry is eligible, and authorised where it has to be, exactly if the pair is valid
  judged_alike :
      (source hv : Hypervisor) (names : Names) (allow : Bool)
      → Known names
      → (hv.id == source.id) ≡ false
      → (let entry = (judged supports site source hv names).0 in
          entry.eligible && (allow || not entry.needs_authorization))
        ≡ is_accepted (validate_pair supports site source hv allow)
  unfolding judged over_replication validate_pair ◌>>=◌
  judged_alike source hv names allow known other = ground (
    arith,
    eq_iff hv.id source.id,
    eq_iff source.id hv.id,
    found_name hv names known,
    connected_alike (site source) (site hv) (named hv),
  )

  -- what an entry says of a submission, and what the submission's test says
  abbrev pub offered : Bool → Candidate → String × Bool
  offered allow entry = (entry.id, entry.eligible && (allow || not entry.needs_authorization))

  abbrev pub valid : Hypervisor → Bool → Hypervisor → String × Bool
  valid source allow hv = (hv.id, is_accepted (validate_pair supports site source hv allow))

  destinations_alike :
      (source : Hypervisor) (allow : Bool) (rows : List Hypervisor) (names : Names)
      → Known names
      → map (offered allow) (destinations supports site source rows names)
        ≡ map (valid source allow) (select (λ hv. not (hv.id == source.id)) rows)
  unfolding destinations
  destinations_alike source allow [] names known = refl
  destinations_alike source allow (hv ∷ rows) names known = elim (Bool-cases (hv.id == source.id)) [
    | inl self ↦
        let rest = destinations_alike source allow rows names known in ground (arith, self, rest)
    | inr other ↦
        let here = judged_alike source hv names allow known other in
        let rest =
          destinations_alike source allow rows ((judged supports site source hv names).1)
            (judged-Known source hv names known) in
        ground (arith, other, rest, judged_id source hv names, here)
  ]

  -- if arrays that answer have names, and hypervisors of one array find the same name for it: the list
  -- of destinations has all other hypervisors in their order, and for a submission with or without
  -- authorization to connect arrays, an entry that is eligible and, without authorization, needs none is
  -- just what `_validate_pair` accepts
  pub migration_destinations-validate_pair :
      (source : Hypervisor) (allow : Bool) (rows : List Hypervisor)
      → map (offered allow) (migration_destinations supports site source rows)
        ≡ map (valid source allow) (select (λ hv. not (hv.id == source.id)) rows)
  unfolding migration_destinations
  migration_destinations-validate_pair source allow rows =
      destinations_alike source allow rows [] (λ h name q. ground arith)
