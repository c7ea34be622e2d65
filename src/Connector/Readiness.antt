-- ===== src/Connector/Readiness.antt =====
-- The comparison of hosts and their interfaces in backend/phif/connectors/base.py:
-- `nics_on_array_subnets`, `nics_on_common_subnets`, `compare_node_interfaces` and
-- `score_host_readiness`. The module ipaddress is a parameter: whether a text is an address, the network
-- of a cidr as a text, and whether an address lies in a network.
use pure_hypervisor_integrat.Prelude.{
  String, Bool, true, false, not, ◌&&◌, ◌||◌, ◌==◌, leb, Option, none, some, List, [], ◌∷◌, ◌++◌,
  map, any, all, select, is_empty, length, contains, given, text_or, maybe, if◌then◌else◌,
}
use pure_hypervisor_integrat.Prelude.Text.{fstring, join, lower, repr, str, sorted_set}

-- an interface
pub record Nic : Type 0 where
  pub name : String
  pub cidr : Option String

-- what is found of a host's initiators
pub record HostInitiators : Type 0 where
  pub nqn : Option String
  pub iqn : Option String
  pub wwns : List String

-- the texts that are there
unfoldable pub present : List (Option String) → List String
present [] = []
present (none ∷ rest) = present rest
present (some s ∷ rest) = s ∷ present rest

-- `x or y` for lists
abbrev pub list_or {ℓ} : {A : Type ℓ} → List A → List A → List A
list_or xs ys = if is_empty xs then ys else xs

module _ (is_address : String → Bool) (network_of : String → Option String)
    (within : String → String → Bool) where
  -- `_nic_network`
  unfoldable pub nic_network : Nic → Option String
  nic_network nic = maybe nic.cidr none (λ cidr. if cidr == "" then none else network_of cidr)

  -- `any(ip in net for ip in portals)`, for a network that is there
  unfoldable pub reaches : List String → Nic → Bool
  unfolding nic_network
  reaches portals nic = maybe (nic_network nic) false (λ net. any (λ ip. within ip net) portals)

  -- `nics_on_array_subnets`
  unfoldable pub nics_on_array_subnets : List Nic → List String → List Nic
  unfolding reaches
  nics_on_array_subnets nics portal_ips =
      let portals = select is_address portal_ips in
      if is_empty portals then nics else list_or (select (reaches portals) nics) nics

  -- the networks of a node
  abbrev pub node_networks : String × List Nic → List String
  node_networks node = present (map nic_network (node.1))

  -- the networks of the first node that all nodes have
  unfoldable pub common_to : List (List String) → List String
  common_to [] = []
  common_to (nets ∷ rest) = select (λ net. all (contains net) rest) nets

  -- `nics_on_common_subnets`
  unfoldable pub nics_on_common_subnets : List Nic → List (String × List Nic) → List Nic
  unfolding common_to nic_network
  nics_on_common_subnets host_nics per_node =
      let sets = map node_networks per_node in
      let common = common_to sets in
      let is_common : Nic → Bool =
        λ nic. maybe (nic_network nic) false (λ net. contains net common) in
      if leb (length sets) 1 || any is_empty sets
      then host_nics
      else if is_empty common
      then host_nics
      else list_or (select is_common host_nics) host_nics

  -- the networks of a host's interfaces that hold a portal, `matched_subnets`
  unfoldable pub matched_subnets : List Nic → List String → List String
  unfolding reaches
  matched_subnets host_nics array_portals =
      sorted_set
        (present (map nic_network (select (reaches (select is_address array_portals)) host_nics)))

  -- the reason of the host's initiators
  abbrev pub initiator_reasons : String → HostInitiators → List String
  initiator_reasons proto i =
      if contains proto ("nvme-tcp" ∷ "nvme-fc" ∷ "nvme-roce" ∷ [])
      then (if given i.nqn then [] else "no NVMe NQN discovered on the host" ∷ [])
      else if contains proto ("fc" ∷ "nvme-fc" ∷ [])
      then (if is_empty i.wwns then "no FC WWNs discovered on the host" ∷ [] else [])
      else (if given i.iqn then [] else "no iSCSI IQN discovered on the host" ∷ [])

  -- the reason of the host's interfaces
  unfoldable pub subnet_reasons : String → List Nic → List String → List String → List String
  unfolding matched_subnets
  subnet_reasons proto host_nics array_portals baseline =
      let matched = matched_subnets host_nics array_portals in
      if contains proto ("iscsi" ∷ "nvme-tcp" ∷ []) && not (is_empty array_portals)
      then (if is_empty matched
          then "no storage NIC on the array's portal subnet" ∷ []
          else if not (is_empty baseline) && not (any (λ net. contains net baseline) matched)
          then "storage NIC subnet doesn't match existing nodes" ∷ []
          else [])
      else []

  -- `score_host_readiness`: whether the host is ready, and the reasons if it is not; without a baseline
  -- the list is empty
  unfoldable pub score_host_readiness :
      Option String
      → Bool
      → HostInitiators
      → List Nic
      → List String
      → List String
      → Bool × List String
  unfolding subnet_reasons
  score_host_readiness protocol reachable initiators host_nics array_portals baseline =
      let proto = lower (text_or protocol "iscsi") in
      let reasons =
        initiator_reasons proto initiators
        ++ subnet_reasons proto host_nics array_portals baseline in
      if reachable then (is_empty reasons, reasons) else (false, "host unreachable over SSH" ∷ [])

-- a list of texts as Python shows it
abbrev pub shown : List String → String
shown xs = fstring ("[" ∷ join ", " (map repr xs) ∷ "]" ∷ [])

-- all values of all nodes
unfoldable pub all_values : List (String × List String) → List String
all_values [] = []
all_values ((node, values) ∷ rest) = values ++ all_values rest

-- the values that each node has
abbrev pub shared_values : List (String × List String) → List String
shared_values per_node =
    select (λ v. all (λ (node : String × List String). contains v (node.1)) per_node)
      (sorted_set (all_values per_node))

-- `compare_node_interfaces`
unfoldable pub compare_node_interfaces : List (String × List String) → Bool × String
unfolding all_values
compare_node_interfaces per_node =
    let common = shared_values per_node in
    let extra = select (λ v. not (contains v common)) (all_values per_node) in
    let lines =
      map
        (λ (node : String × List String).
          fstring (node.0 ∷ ": " ∷ shown (sorted_set (node.1)) ∷ []))
        per_node in
    if leb (length per_node) 1
    then (true, "single node")
    else if is_empty extra
    then (true, fstring ("all " ∷ str (length per_node) ∷ " nodes share " ∷ shown common ∷ []))
    else (false, fstring ("interfaces differ across nodes -> " ∷ join "; " lines ∷ []))
