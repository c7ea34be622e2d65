-- ===== src/Proxmox/Nodes.antt =====
-- The nodes of a cluster in backend/phif/connectors/proxmox/connector.py: their list, those that can be
-- driven, the one that the next VM is placed on, those that do not reach the array.
use pure_hypervisor_integrat.Prelude.{
  ℕ, zero, suc, ◌%◌, String, Bool, true, false, ◌==◌, leb, Option, none, some, List, [], ◌∷◌, map,
  select, contains, maybe, length, is_empty, if◌then◌else◌,
}
use pure_hypervisor_integrat.Prelude.Text.{fstring, join, str, strip, includes}
use pure_hypervisor_integrat.Prelude.Json.{
  Value, json_text, json_dict, Fields, no_fields, more_fields, get, truth,
}
use pure_hypervisor_integrat.Array.Io.{pure, ◌>>=◌, ◌>>◌}
use pure_hypervisor_integrat.Proxmox.Session.{
  Outside, Act, emit, look, modify, raised, rescue, Parsed, parsed, refused, is_mock_or_dry,
  the_host, ssh, ssh_on,
}

pub record ClusterNode : Type 0 where
  pub name : String
  pub host : String
  pub online : Bool

-- `hosts[i]`, for an index in range
unfoldable pub nth : List String → ℕ → String
nth [] i = ""
nth (h ∷ hosts) zero = h
nth (h ∷ hosts) (suc i) = nth hosts i

-- `d or {}` of a value, as a dictionary; `none` is the AttributeError of another value's `get`
unfoldable pub dict_or_empty : Value → Option Fields
dict_or_empty (json_dict d) = some d
dict_or_empty v = if truth v then none else some no_fields

-- `d.get(key) or {}`
unfoldable pub dict_at : String → Fields → Option Fields
unfolding get dict_or_empty
dict_at key d = maybe (get key d) (some no_fields) dict_or_empty

module _ (o : Outside) where
  -- `str(v)`
  abbrev pub str_value : Value → String
  str_value (json_text s) = s
  str_value v = o.printed v

  -- the entry of one member
  unfoldable pub node_of : String → Fields → ClusterNode
  unfolding get
  node_of name meta = record {
    name = name;
    host = maybe (get "ip" meta) name (λ ip. if truth ip then str_value ip else name);
    online = maybe (get "online" meta) true truth;
  }

  -- the entries of all members
  unfoldable pub nodes_of : Fields → Option (List ClusterNode)
  unfolding dict_or_empty node_of
  nodes_of no_fields = some []
  nodes_of (more_fields name meta members) =
      let rest = nodes_of members in
      maybe (dict_or_empty meta) none (λ d. maybe rest none (λ ns. some (node_of name d ∷ ns)))

  abbrev single_node : String → List ClusterNode
  single_node host = record { name = host; host = host; online = true } ∷ []

  abbrev attribute_error : {A : Type 0} → Act A
  attribute_error = raised "object has no attribute 'get'"

  -- the nodes that the members file names
  unfoldable pub members_read : String → Parsed → Act (List ClusterNode)
  unfolding ◌>>=◌ dict_or_empty dict_at nodes_of
  members_read conn_host (refused exc) = do
    emit (
        fstring (
          "Not a PVE cluster (or .members unreadable: " ∷ exc ∷ "); treating " ∷ conn_host
          ∷ " as a single node" ∷ []))
    pure (single_node conn_host)
  members_read conn_host (parsed v) = maybe (dict_or_empty v) attribute_error (λ d.
      maybe (dict_at "nodelist" d) attribute_error (λ members.
        maybe (nodes_of members) attribute_error (λ nodes.
          if is_empty nodes
          then pure (single_node conn_host)
          else emit (
              fstring (
                "PVE cluster: "
                ∷ str (length nodes)
                ∷ " node(s) -> "
                ∷ join ", " (map (λ n. n.name) nodes)
                ∷ []))
            >> pure nodes)))

  -- `list_nodes`
  unfoldable pub list_nodes : Act (List ClusterNode)
  unfolding ◌>>=◌ the_host ssh members_read
  list_nodes = do
    conn_host ← the_host o
    if is_mock_or_dry o
        then emit
            (fstring ("[mock/dry-run] synthetic 2-node cluster seeded from " ∷ conn_host ∷ []))
          >> pure (
              record { name = "pve-node1"; host = conn_host; online = true }
              ∷ record { name = "pve-node2"; host = "192.0.2.2"; online = true }
              ∷ [])
        else ssh o "cat /etc/pve/.members" false none >>= λ raw.
            members_read conn_host (o.loads raw)

  -- whether one peer can be driven, and a line if not
  unfoldable pub probe : ClusterNode → Act Bool
  unfolding ◌>>=◌
  probe n =
      rescue (ssh_on o n.host "true" true (some 10)) (λ out. pure true)
        (λ exc. do
          emit (
              fstring (
                "[placement] skipping cluster node "
                ∷ n.host
                ∷ " for VM spread: SSH not usable ("
                ∷ o.class_name exc
                ∷ ")"
                ∷ []))
          pure false)

  -- the hosts of the nodes that can be driven
  unfoldable pub drivable : String → List ClusterNode → Act (List String)
  unfolding ◌>>=◌ probe
  drivable conn_host [] = pure []
  drivable conn_host (n ∷ nodes) =
      let rest = drivable conn_host nodes in
      do
        fine ← if n.host == conn_host then pure true else probe n
        hosts ← rest
        pure (if fine then n.host ∷ hosts else hosts)

  -- the hosts that are kept for the next time
  unfoldable pub found_hosts : String → List ClusterNode → Act (List String)
  unfolding ◌>>=◌ drivable
  found_hosts conn_host nodes = do
    hosts ← drivable conn_host nodes
    let all = if contains conn_host hosts then hosts else conn_host ∷ hosts
    modify (λ s. record s { reachable = some all })
    pure all

  -- `_reachable_rr_hosts`
  unfoldable pub reachable_rr_hosts : String → Act (List String)
  unfolding ◌>>=◌ list_nodes found_hosts
  reachable_rr_hosts conn_host = look (λ s. s.reachable) >>= λ known.
      maybe known
        (rescue list_nodes (λ nodes. found_hosts conn_host (select (λ n. n.online) nodes))
          (λ exc. found_hosts conn_host []))
        pure

  -- `_pick_rr_node`
  unfoldable pub pick_rr_node : Act (Option String)
  unfolding ◌>>=◌ the_host reachable_rr_hosts nth
  pick_rr_node = if is_mock_or_dry o then pure none else do
    conn_host ← the_host o
    hosts ← reachable_rr_hosts conn_host
    idx ← look (λ s. s.cursor)
    if leb (length hosts) 1
        then pure none
        else modify (λ s. record s { cursor = suc s.cursor })
          >> pure (some (nth hosts (idx % length hosts)))

  -- the command that tries to reach the array's address
  abbrev pub array_probe : String → ℕ → String
  array_probe host port = fstring (
      "timeout 5 bash -c 'exec 3<>/dev/tcp/"
      ∷ host
      ∷ "/"
      ∷ str port
      ∷ "' 2>/dev/null && echo ARRAY_OK || echo ARRAY_FAIL"
      ∷ [])

  -- `_unreachable_nodes`
  unfoldable pub unreachable_nodes : List ClusterNode → String → ℕ → Act (List String)
  unfolding ◌>>=◌ includes
  unreachable_nodes [] host port = pure []
  unreachable_nodes (node ∷ nodes) host port =
      let rest = unreachable_nodes nodes host port in
      if is_mock_or_dry o then pure [] else do
        out ← ssh_on o node.host (array_probe host port) false none
        later ← rest
        pure (
            if includes out "ARRAY_OK"
            then later
            else fstring (node.name ∷ " (" ∷ node.host ∷ ")" ∷ []) ∷ later)

  -- `_node_name`
  unfoldable pub node_name : Act String
  unfolding ◌>>=◌ ssh the_host strip
  node_name =
      if is_mock_or_dry o
      then pure "pve-node1"
      else ssh o "hostname -s" false none >>= λ out.
          if strip out == "" then the_host o else pure (strip out)
