-- ===== src/Array/InMemory.antt =====
-- `register_host_group` of `MockFlashArrayClient`: the registration with the client in memory.
use pure_hypervisor_integrat.Prelude.{
  String, ◌≡◌, refl, subst, sym, ◌∙◌, ap, Bool, true, false, not, ◌==◌, eq_iff, Option, none, some,
  List, [], ◌∷◌, All, map, contains, if◌then◌else◌, lookup, maybe, inl, inr, ◌⊎◌,
}
use mathlib.Core.Option.{none-ne-some}
use pure_hypervisor_integrat.Prelude.Text.{sorted_set}
use pure_hypervisor_integrat.Prelude.Dict.{get_or, lookup-assign}
use pure_hypervisor_integrat.Array.Hosts.{Initiators, find_owner}
use pure_hypervisor_integrat.Array.Io.{Answer, done, failed, pure, proceed, ◌>>=◌}
use pure_hypervisor_integrat.Array.Mock.{Mock, Vol}
use pure_hypervisor_integrat.Array.MockHosts.{
  merge, create_host, find_host_by_initiator, get_host, create_host_group, named,
}
use pure_hypervisor_integrat.Array.Register.{
  HostClient, HostSpec, Planned, Registered, true_text, keys, groups_seen, chosen, created_of,
  reused_of, look_at, look, look_all, create_one, create_missing, put_in_group, decide,
  register_host_group,
}
use pure_hypervisor_integrat.Array.Registration.{Reads}
use pure_hypervisor_integrat.Array.Making.{merge-has, Made, created-Made, create_host-Made}

-- the client in memory, for the registration
abbrev pub mock_client : HostClient Mock
mock_client = record {
  find_host = λ i s. let (o, s') = find_host_by_initiator i s in (done o, s');
  host_group_of = λ name s.
      let (o, s') = get_host name s in
      (done (maybe o none (λ (h : Initiators × Option String). h.1)), s');
  new_host = λ name i s. (done tt, create_host name i s);
  new_group = λ name members s. (done tt, create_host_group name members s);
}

-- what the array holds, without the record of the calls
abbrev pub contents :
    Mock → List (String × Vol) × List (String × Initiators) × List (String × List String)
contents s = (s.volumes, s.hosts, s.host_groups)

pub mock-Reads : Reads mock_client contents
unfolding find_host_by_initiator get_host
mock-Reads = record { found = λ i s. refl; looked = λ name s. refl }

-- the members of a group
abbrev pub members : String → Mock → List String
members group s = get_or [] (lookup group s.host_groups)

members-create :
    (group : String) (names : List String) (s : Mock)
    → members group (create_host_group group names s) ≡ merge (members group s) names
unfolding create_host_group
members-create group names s =
    ap (get_or []) (lookup-assign group group (merge (members group s) names) s.host_groups)
    ∙ ap
        (λ b.
          get_or []
            (if b then some (merge (members group s) names) else lookup group s.host_groups))
        ((eq_iff group group).1 refl)

-- a step of the second loop: it answers, keeps the hosts that are made, and makes one if none exists
create_one_answers :
    (spec : HostSpec) (o : Option String) (s : Mock)
    → (s' : Mock) × (create_one mock_client spec o s ≡ (done tt, s'))
      × ((other : HostSpec) → Made other s → Made other s')
      × (o ≡ none → Made spec s')
unfolding create_one
create_one_answers spec none s = (
  create_host spec.name spec.initiators s,
  refl,
  λ other made. create_host-Made other spec.name spec.initiators s made,
  λ q. created-Made spec s,
)
create_one_answers spec (some e) s =
    (s, refl, λ other made. made, λ q. absurd (none-ne-some _ (sym q)))

create_missing_answers :
    (plan : List Planned) (s : Mock)
    → (s' : Mock) × (create_missing mock_client plan s ≡ (done tt, s'))
      × ((other : HostSpec) → Made other s → Made other s')
      × All (λ p. p.existing ≡ none → Made p.spec s') plan
unfolding create_missing ◌>>=◌
create_missing_answers [] s = (s, refl, λ other made. made, tt)
create_missing_answers (p ∷ plan) s =
    let (s₁, one, keeps, made) = create_one_answers p.spec p.existing s in
    let (s₂, rest, keeps', all) = create_missing_answers plan s₁ in
    (
      s₂,
      ap (λ (r : Answer (Unit {0}) × Mock). proceed r.0 (λ _. create_missing mock_client plan) r.1)
            one
          ∙ rest,
      λ other m. keeps' other (keeps other m),
      (λ q. keeps' p.spec (made q), all),
    )

-- the host for an entry: the one that owns some of its initiators when the registration begins, or else
-- one of the entry's name, which has all of them at the end
abbrev pub Placed : List (String × Initiators) → Mock → HostSpec → String → Type 0
Placed before s spec host =
    (true_text (find_owner spec.initiators (named before)) ≡ some host)
    ⊎ ((true_text (find_owner spec.initiators (named before)) ≡ none)
        × (host ≡ spec.name)
        × Made spec s)

-- a host for each entry, in their order
abbrev pub AllPlaced : List (String × Initiators) → Mock → List HostSpec → List String → Type 0
AllPlaced before s [] [] = Unit
AllPlaced before s [] (h ∷ hosts) = ⊥
AllPlaced before s (spec ∷ specs) [] = ⊥
AllPlaced before s (spec ∷ specs) (h ∷ hosts) =
    Placed before s spec h × AllPlaced before s specs hosts

-- a registration that has answered: unless there is a conflict, each entry has its host, and these are
-- members of the group
abbrev pub Grouped : List (String × Initiators) → List HostSpec → Answer Registered × Mock → Type 0
Grouped before specs (done r, s) =
    (r.conflict ≡ none)
    → AllPlaced before s specs r.hosts
      × All (λ h. contains h (members r.host_group s) ≡ true) r.hosts
Grouped before specs (failed e, s) = ⊥

-- an entry of the plan has what was found for it
abbrev Found : List (String × Initiators) → Planned → Type 0
Found before p = p.existing ≡ true_text (find_owner p.spec.initiators (named before))

planned-Placed :
    (before : List (String × Initiators)) (s : Mock) (spec : HostSpec) (o : Option String)
    → o ≡ true_text (find_owner spec.initiators (named before))
    → (o ≡ none → Made spec s)
    → Placed before s spec (maybe o spec.name (λ e. e))
planned-Placed before s spec none found made = inr (sym found, refl, made refl)
planned-Placed before s spec (some e) found made = inl (sym found)

plan-AllPlaced :
    (before : List (String × Initiators)) (s : Mock) (plan : List Planned)
    → All (Found before) plan
    → All (λ p. p.existing ≡ none → Made p.spec s) plan
    → AllPlaced before s (map (λ p. p.spec) plan) (map chosen plan)
plan-AllPlaced before s [] found made = tt
plan-AllPlaced before s (p ∷ plan) (f, found) (m, made) =
    (planned-Placed before s p.spec p.existing f m, plan-AllPlaced before s plan found made)

grouped_hosts :
    (before : List (String × Initiators)) (s : Mock) (group : String) (names : List String)
    (specs : List HostSpec) (hosts : List String)
    → AllPlaced before s specs hosts
    → AllPlaced before (create_host_group group names s) specs hosts
unfolding create_host_group
grouped_hosts before s group names [] [] all = tt
grouped_hosts before s group names [] (h ∷ hosts) all = all
grouped_hosts before s group names (spec ∷ specs) [] all = all
grouped_hosts before s group names (spec ∷ specs) (h ∷ hosts) (one, all) =
    (one, grouped_hosts before s group names specs hosts all)

put-Grouped :
    (before : List (String × Initiators)) (group : String) (adopted : Bool) (plan : List Planned)
    (s : Mock)
    → All (Found before) plan
    → Grouped before (map (λ p. p.spec) plan) (put_in_group mock_client group adopted plan s)
unfolding put_in_group ◌>>=◌
put-Grouped before group adopted plan s found =
    let (s', answered, keeps, made) = create_missing_answers plan s in
    let answer : Registered = record {
      host_group = group;
      hosts = map chosen plan;
      adopted = adopted;
      created = created_of plan;
      reused = reused_of plan;
      conflict = none;
    } in
    subst
      (λ (r : Answer (Unit {0}) × Mock).
        Grouped before (map (λ p. p.spec) plan)
          (proceed r.0 (λ _ s''. (done answer, create_host_group group (map chosen plan) s'')) r.1))
      (sym answered)
      (λ _. (
        grouped_hosts before s' group (map chosen plan) (map (λ p. p.spec) plan) (map chosen plan)
            (plan-AllPlaced before s' plan found made),
        subst (λ ms. All (λ h. contains h ms ≡ true) (map chosen plan))
            (sym (members-create group (map chosen plan) s'))
            (merge-has (members group s') (map chosen plan)),
      ))

decide-Grouped :
    (before : List (String × Initiators)) (requested : String) (plan : List Planned)
    (groups : List String) (s : Mock)
    → All (Found before) plan
    → Grouped before (map (λ p. p.spec) plan) (decide mock_client requested plan groups s)
unfolding decide
decide-Grouped before requested plan [] s found = put-Grouped before requested false plan s found
decide-Grouped before requested plan (g ∷ []) s found =
    put-Grouped before g (not (g == requested)) plan s found
decide-Grouped before requested plan (g ∷ h ∷ more) s found = λ none_found. cc

look_at_answers :
    (spec : HostSpec) (o : Option String) (s : Mock)
    → (p : Planned) × (s' : Mock) × (look_at mock_client spec o s ≡ (done p, s'))
      × (p.spec ≡ spec)
      × (p.existing ≡ o)
      × (s'.hosts ≡ s.hosts)
unfolding look_at get_host ◌>>=◌
look_at_answers spec none s = (_, s, refl, refl, refl, refl)
look_at_answers spec (some e) s = (_, _, refl, refl, refl, refl)

look_all_answers :
    (before : List (String × Initiators)) (specs : List HostSpec) (s : Mock)
    → s.hosts ≡ before
    → (plan : List Planned) × (s' : Mock) × (look_all mock_client specs s ≡ (done plan, s'))
      × (map (λ p. p.spec) plan ≡ specs)
      × All (Found before) plan
unfolding look_all look find_host_by_initiator ◌>>=◌
look_all_answers before [] s same = ([], s, refl, refl, tt)
look_all_answers before (spec ∷ specs) s same =
    let (found, s₁) = find_host_by_initiator spec.initiators s in
    let (p, s₂, one, is, exists, kept) = look_at_answers spec (true_text found) s₁ in
    let (plan, s₃, rest, sames, all) = look_all_answers before specs s₂ (kept ∙ same) in
    (
      p ∷ plan,
      s₃,
      ap
            (λ (r : Answer Planned × Mock).
              proceed r.0 (λ p. look_all mock_client specs >>= λ plan. pure (p ∷ plan)) r.1)
            one
          ∙ ap (λ (r : Answer (List Planned) × Mock). proceed r.0 (λ plan. pure (p ∷ plan)) r.1)
              rest,
      ap (λ x. x ∷ map (λ p. p.spec) plan) is ∙ ap (λ xs. spec ∷ xs) sames,
      (
        exists
            ∙ ap (λ hosts. true_text (find_owner spec.initiators (named hosts))) same
            ∙ ap (λ x. true_text (find_owner x.initiators (named before))) (sym is),
        all,
      ),
    )

-- A registration with the client in memory always answers. Unless it finds a conflict, there is one host
-- for each entry, in their order: the host that owned some of the entry's initiators when the
-- registration began, or, if none did, one of the entry's name, which is then on the array with all
-- initiators of the entry. All these hosts are members of the group that is returned.
pub register_host_group-Grouped :
    (requested : String) (specs : List HostSpec) (s : Mock)
    → Grouped s.hosts specs (register_host_group mock_client requested specs s)
unfolding register_host_group ◌>>=◌
register_host_group-Grouped requested specs s =
    let (plan, s', looked, sames, found) = look_all_answers s.hosts specs s refl in
    subst (λ xs. Grouped s.hosts xs (register_host_group mock_client requested specs s)) sames
      (subst
        (λ (r : Answer (List Planned) × Mock). Grouped s.hosts (map (λ p. p.spec) plan) (
          proceed r.0
            (λ pl. decide mock_client requested pl (sorted_set (keys (groups_seen [] pl)))) r.1))
        (sym looked)
        (decide-Grouped s.hosts requested plan (sorted_set (keys (groups_seen [] plan))) s' found))
