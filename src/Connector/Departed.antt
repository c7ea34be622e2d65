-- ===== src/Connector/Departed.antt =====
-- `_prune_departed_fa_hosts` of backend/phif/connectors/base.py, with the client of the REST API. The
-- line that it emits for each host is left out.
use Prim.Native.String.{compare}
use Prim.Native.Nat.{Ordering}
use pure_hypervisor_integrat.Prelude.{
  String, Bool, true, false, not, ◌==◌, Option, none, some, List, [], ◌∷◌, select, contains,
  if◌then◌else◌,
}
use pure_hypervisor_integrat.Prelude.Text.{sorted_set}
use pure_hypervisor_integrat.Array.Io.{pure, ◌>>=◌, ◌>>◌}
use pure_hypervisor_integrat.Array.Rest.{Array, Rest}
use pure_hypervisor_integrat.Array.HostCalls.{
  get_host_group_members, remove_host_from_group, remove_host,
}

-- the dictionary that is returned
pub record Pruned : Type 0 where
  pub members : List String
  pub expected : List String
  pub departed : List String
  pub removed : List String

-- a text put in its place in a sorted list
unfoldable pub placed : String → List String → List String
placed s [] = s ∷ []
placed s (t ∷ rest) =
    let later = t ∷ placed s rest in elim (compare s t) [ Ordering.gt ↦ later | _ ↦ s ∷ t ∷ rest ]

-- `sorted(xs)`
unfoldable pub sorted : List String → List String
unfolding placed
sorted [] = []
sorted (s ∷ rest) = placed s (sorted rest)

-- `{h for h in expected_hosts if h}`, sorted
abbrev pub expected_names : List String → List String
expected_names hosts = sorted_set (select (λ h. not (h == "")) hosts)

-- the members that are not expected
abbrev pub departed_of : List String → List String → List String
departed_of expected = select (λ m. not (contains m expected))

-- the result before the array is asked
abbrev pub nothing_pruned : List String → Pruned
nothing_pruned expected = record { members = []; expected = expected; departed = []; removed = [] }

-- the result before anything is removed
unfoldable pub drift_of : List String → List String → Pruned
unfolding sorted
drift_of expected members = record {
  members = sorted members;
  expected = expected;
  departed = sorted (departed_of expected members);
  removed = [];
}

module _ (array : Array) where
  -- the loop over the departed hosts: the hosts that were removed
  unfoldable pub remove_departed : String → List String → Rest (List String)
  remove_departed host_group [] = pure []
  remove_departed host_group (host ∷ departed) = do
    remove_host_from_group array host_group host
    remove_host array host
    removed ← remove_departed host_group departed
    pure (host ∷ removed)

  -- what follows the list of the members
  unfoldable pub act_on_drift : String → List String → Bool → List String → Rest Pruned
  unfolding remove_departed
  act_on_drift host_group expected false members = pure (drift_of expected members)
  act_on_drift host_group expected true members = do
    removed ← remove_departed host_group (departed_of expected members)
    pure (record (drift_of expected members) { removed = removed })

  -- `_prune_departed_fa_hosts` with an array and a group
  unfoldable pub prune : String → List String → Bool → Rest Pruned
  unfolding act_on_drift
  prune host_group expected apply_removals = do
    members ← get_host_group_members array host_group
    act_on_drift host_group expected apply_removals members

-- `_prune_departed_fa_hosts`
unfoldable pub prune_departed_fa_hosts : Option Array → String → List String → Bool → Rest Pruned
unfolding prune
prune_departed_fa_hosts none host_group expected_hosts apply_removals =
    pure (nothing_pruned (expected_names expected_hosts))
prune_departed_fa_hosts (some array) host_group expected_hosts apply_removals =
    if host_group == ""
    then pure (nothing_pruned (expected_names expected_hosts))
    else prune array host_group (expected_names expected_hosts) apply_removals
