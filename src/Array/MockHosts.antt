-- ===== src/Array/MockHosts.antt =====
-- The hosts and host groups of `MockFlashArrayClient` of backend/phif/flasharray/client.py.
use pure_hypervisor_integrat.Prelude.{
  String, Option, none, some, List, [], ◌∷◌, ◌++◌, map, contains, if◌then◌else◌, lookup, maybe,
  given, text_or,
}
use pure_hypervisor_integrat.Prelude.Dict.{assign, erase, get_or}
use pure_hypervisor_integrat.Array.Hosts.{Initiators, find_owner}
use pure_hypervisor_integrat.Array.Mock.{Mock, Arg, text, texts, absent, rec_call, discard}

-- `for v in vals: if v not in xs: xs.append(v)`
unfoldable pub merge : List String → List String → List String
merge xs [] = xs
merge xs (v ∷ vals) = merge (if contains v xs then xs else xs ++ (v ∷ [])) vals

abbrev pub no_initiators : Initiators
no_initiators = record { iqns = []; wwns = []; nqns = [] }

abbrev pub initiator_args : Initiators → List (String × Arg)
initiator_args i = ("iqns", texts i.iqns) ∷ ("wwns", texts i.wwns) ∷ ("nqns", texts i.nqns) ∷ []

-- `create_host`
unfoldable pub create_host : String → Initiators → Mock → Mock
unfolding merge
create_host name i s =
    let h = get_or no_initiators (lookup name s.hosts) in
    rec_call "create_host" (("name", text name) ∷ initiator_args i) (record s {
      hosts =
          assign name
            (record {
              iqns = merge h.iqns i.iqns;
              wwns = merge h.wwns i.wwns;
              nqns = merge h.nqns i.nqns;
            })
            s.hosts;
    })

-- the hosts, each with its name
abbrev pub named : List (String × Initiators) → List (Option String × Initiators)
named = map (λ h. (some h.0, h.1))

-- `find_host_by_initiator`
unfoldable pub find_host_by_initiator : Initiators → Mock → Option String × Mock
find_host_by_initiator i s =
    (find_owner i (named s.hosts), rec_call "find_host_by_initiator" (initiator_args i) s)

-- `ensure_host`
unfoldable pub ensure_host : String → Initiators → Mock → String × Mock
unfolding create_host find_host_by_initiator
ensure_host name i s =
    let (existing, s₁) = find_host_by_initiator i s in
    if given existing
    then (
      text_or existing "",
      rec_call "ensure_host" (("name", text name) ∷ ("reused", text (text_or existing "")) ∷ []) s₁,
    )
    else (
      name,
      rec_call "ensure_host" (("name", text name) ∷ ("reused", absent) ∷ [])
          (create_host name i s₁),
    )

-- the first group that has the host
unfoldable pub group_of : String → List (String × List String) → Option String
group_of name [] = none
group_of name ((group, hosts) ∷ groups) =
    let later = group_of name groups in if contains name hosts then some group else later

-- `get_host`: the host's initiators and its group, if it is there
unfoldable pub get_host : String → Mock → Option (Initiators × Option String) × Mock
unfolding group_of
get_host name s = (
  maybe (lookup name s.hosts) none (λ h. some (h, group_of name s.host_groups)),
  rec_call "get_host" (("name", text name) ∷ []) s,
)

-- `create_host_group`
unfoldable pub create_host_group : String → List String → Mock → Mock
unfolding merge
create_host_group name members s =
    rec_call "create_host_group" (("name", text name) ∷ ("hosts", texts members) ∷ []) (record s {
      host_groups =
          assign name (merge (get_or [] (lookup name s.host_groups)) members) s.host_groups;
    })

-- `get_host_group_members`
unfoldable pub get_host_group_members : String → Mock → List String × Mock
get_host_group_members name s = (
  get_or [] (lookup name s.host_groups),
  rec_call "get_host_group_members" (("name", text name) ∷ []) s,
)

-- `remove_host_from_group`; a member is there once at most
unfoldable pub remove_host_from_group : String → String → Mock → Mock
remove_host_from_group name host s =
    rec_call "remove_host_from_group" (("name", text name) ∷ ("host", text host) ∷ []) (
      maybe (lookup name s.host_groups) s
        (λ members. record s { host_groups = assign name (discard host members) s.host_groups }))

-- `delete_host`
unfoldable pub delete_host : String → Mock → Mock
delete_host name s =
    rec_call "delete_host" (("name", text name) ∷ []) (record s { hosts = erase name s.hosts })

-- `delete_host_group`
unfoldable pub delete_host_group : String → Mock → Mock
delete_host_group name s =
    rec_call "delete_host_group" (("name", text name) ∷ [])
      (record s { host_groups = erase name s.host_groups })
