-- ===== src/Array/Hosts.antt =====
-- Initiators and the search for the host that owns one: `find_host_by_initiator` and `_norm_wwn` of
-- backend/phif/flasharray/client.py, as both clients have them.
use Prim.Native.Char.{Char, code}
use pure_hypervisor_integrat.Prelude.{
  String, Bool, not, ◌&&◌, ◌||◌, ◌==◌, eqb, Option, none, List, [], ◌∷◌, map, any, select, contains,
  is_empty, if◌then◌else◌,
}
use pure_hypervisor_integrat.Prelude.Text.{lower, lower_char, strip}

-- the initiators of a host, or those that are asked for; an absent list is an empty one (`x or []`)
pub record Initiators : Type 0 where
  pub iqns : List String
  pub wwns : List String
  pub nqns : List String

-- a character of `":- "`
abbrev pub separates : Char → Bool
separates c = eqb (code c) 58 || (eqb (code c) 45 || eqb (code c) 32)

-- `_norm_wwn`
unfoldable pub norm_wwn : String → String
norm_wwn String.[] = String.[]
norm_wwn (String.◌∷◌ c s) =
    let rest = norm_wwn s in if separates c then rest else String.◌∷◌ (lower_char c) rest

-- `[s for s in xs if s.strip()]`
abbrev pub filled : List String → List String
filled = select (λ s. not (strip s == ""))

-- `want_iqn`, `want_wwn` and `want_nqn`
unfoldable pub wanted : Initiators → Initiators
wanted i = record {
  iqns = map (λ s. lower (strip s)) (filled i.iqns);
  wwns = map norm_wwn (filled i.wwns);
  nqns = map (λ s. lower (strip s)) (filled i.nqns);
}

-- `hi`, `hw` and `hn` of a host
unfoldable pub owned : Initiators → Initiators
owned i = record { iqns = map lower i.iqns; wwns = map norm_wwn i.wwns; nqns = map lower i.nqns }

-- whether two sets have a common element
abbrev pub meets : List String → List String → Bool
meets xs ys = any (λ x. contains x ys) xs

-- `(want_iqn & hi) or (want_nqn & hn) or (want_wwn & hw)`
unfoldable pub shares : Initiators → Initiators → Bool
shares want have =
    meets want.iqns have.iqns || (meets want.nqns have.nqns || meets want.wwns have.wwns)

-- `not (want_iqn or want_nqn or want_wwn)`
abbrev pub asks_nothing : Initiators → Bool
asks_nothing want = is_empty want.iqns && (is_empty want.nqns && is_empty want.wwns)

-- the loop over the hosts: the name of the first that owns one of the initiators, which may be absent
unfoldable pub first_owner : Initiators → List (Option String × Initiators) → Option String
first_owner want [] = none
first_owner want ((name, have) ∷ hosts) =
    let later = first_owner want hosts in if shares want (owned have) then name else later

-- `find_host_by_initiator` over the array's hosts
unfoldable pub find_owner : Initiators → List (Option String × Initiators) → Option String
unfolding wanted first_owner
find_owner asked hosts =
    if asks_nothing (wanted asked) then none else first_owner (wanted asked) hosts
