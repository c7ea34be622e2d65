-- ===== src/Array/Register.antt =====
-- `_register_host_group` of backend/phif/flasharray/client.py: the hosts of a pool are matched to hosts
-- of the array by their initiators, and put into one group. It works with both clients, so the client
-- is a record of the operations that it calls.
use pure_hypervisor_integrat.Prelude.{
  String, Bool, false, not, ◌==◌, Option, none, some, List, [], ◌∷◌, ◌++◌, map, if◌then◌else◌,
  lookup, given, text_or, maybe,
}
use pure_hypervisor_integrat.Prelude.Text.{fstring, repr, join, sorted_set}
use pure_hypervisor_integrat.Prelude.Dict.{assign, get_or}
use pure_hypervisor_integrat.Array.Hosts.{Initiators}
use pure_hypervisor_integrat.Array.Io.{Io, pure, ◌>>=◌, ◌>>◌}

-- the operations of a client that the registration calls; `host_group_of` is `get_host`, of which only
-- the group is read
pub record HostClient (S : Type 0) : Type 0 where
  pub find_host : Initiators → Io S (Option String)
  pub host_group_of : String → Io S (Option String)
  pub new_host : String → Initiators → Io S (Unit {0})
  pub new_group : String → List String → Io S (Unit {0})

-- an entry of `hosts`
pub record HostSpec : Type 0 where
  pub name : String
  pub initiators : Initiators

-- an entry of `plan`, with the group that its existing host is in
pub record Planned : Type 0 where
  pub spec : HostSpec
  pub existing : Option String
  pub group : Option String

-- the dictionary that is returned
pub record Registered : Type 0 where
  pub host_group : String
  pub hosts : List String
  pub adopted : Bool
  pub created : List String
  pub reused : List String
  pub conflict : Option String

-- a text that is not empty
abbrev pub true_text : Option String → Option String
true_text o = if given o then o else none

-- `groups_seen`: the existing hosts by their groups
unfoldable pub note_group : List (String × List String) → Planned → List (String × List String)
note_group seen p =
    maybe p.group seen
      (λ g. assign g (get_or [] (lookup g seen) ++ (text_or p.existing "" ∷ [])) seen)

unfoldable pub groups_seen :
    List (String × List String) → List Planned → List (String × List String)
unfolding note_group
groups_seen seen [] = seen
groups_seen seen (p ∷ plan) = groups_seen (note_group seen p) plan

abbrev pub keys : List (String × List String) → List String
keys = map (λ g. g.0)

-- `detail`
unfoldable pub detail : List (String × List String) → List String → String
detail seen distinct = join "; " (
    map (λ g. fstring (join ", " (get_or [] (lookup g seen)) ∷ " in host group " ∷ repr g ∷ []))
      distinct)

unfoldable pub conflict_text : String → String
conflict_text d = fstring (
    "Pool hosts are spread across multiple FlashArray host groups (" ∷ d
    ∷ "); cannot choose one automatically. Consolidate them into a single host group on the array "
    ∷ "(or clear the extra memberships), then retry." ∷ [])

-- the host that stands for an entry of the plan
abbrev pub chosen : Planned → String
chosen p = maybe p.existing p.spec.name (λ e. e)

-- `reused` and `created`
unfoldable pub reused_of : List Planned → List String
reused_of [] = []
reused_of (p ∷ plan) = let rest = reused_of plan in maybe p.existing rest (λ e. e ∷ rest)

unfoldable pub created_of : List Planned → List String
created_of [] = []
created_of (p ∷ plan) =
    let rest = created_of plan in maybe p.existing (p.spec.name ∷ rest) (λ e. rest)

module _ {S : Type 0} (client : HostClient S) where
  -- the entry of the plan, by the host that was found
  unfoldable pub look_at : HostSpec → Option String → Io S Planned
  look_at spec none = pure (record { spec = spec; existing = none; group = none })
  look_at spec (some e) = do
    group ← client.host_group_of e
    pure (record { spec = spec; existing = some e; group = true_text group })

  -- the body of the first loop
  unfoldable pub look : HostSpec → Io S Planned
  unfolding look_at
  look spec = do found ← client.find_host spec.initiators; look_at spec (true_text found)

  -- the first loop, which only reads
  unfoldable pub look_all : List HostSpec → Io S (List Planned)
  unfolding look
  look_all [] = pure []
  look_all (spec ∷ specs) = do p ← look spec; plan ← look_all specs; pure (p ∷ plan)

  -- the body of the second loop, by the existing host: a host is created where there is none
  unfoldable pub create_one : HostSpec → Option String → Io S (Unit {0})
  create_one spec none = client.new_host spec.name spec.initiators
  create_one spec (some e) = pure tt

  -- the second loop
  unfoldable pub create_missing : List Planned → Io S (Unit {0})
  unfolding create_one
  create_missing [] = pure tt
  create_missing (p ∷ plan) = do create_one p.spec p.existing; create_missing plan

  -- what follows the first loop when the group is settled
  unfoldable pub put_in_group : String → Bool → List Planned → Io S Registered
  unfolding create_missing
  put_in_group group adopted plan = do
    create_missing plan
    client.new_group group (map chosen plan)
    pure (record {
      host_group = group;
      hosts = map chosen plan;
      adopted = adopted;
      created = created_of plan;
      reused = reused_of plan;
      conflict = none;
    })

  -- the decision, by the groups that were seen
  unfoldable pub decide : String → List Planned → List String → Io S Registered
  unfolding put_in_group
  decide requested plan [] = put_in_group requested false plan
  decide requested plan (group ∷ []) = put_in_group group (not (group == requested)) plan
  decide requested plan (g ∷ h ∷ more) = pure (record {
    host_group = requested;
    hosts = [];
    adopted = false;
    created = [];
    reused = [];
    conflict = some (conflict_text (detail (groups_seen [] plan) (g ∷ h ∷ more)));
  })

  -- `_register_host_group`
  unfoldable pub register_host_group : String → List HostSpec → Io S Registered
  unfolding look_all decide
  register_host_group requested specs = do
    plan ← look_all specs
    decide requested plan (sorted_set (keys (groups_seen [] plan)))
