-- ===== src/Xcpng/Pool.antt =====
-- The hosts of a pool in backend/phif/connectors/xcpng/connector.py.
use pure_hypervisor_integrat.Prelude.{
  String, true, false, ◌==◌, eqb, some, List, [], ◌∷◌, map, select, length, text_or, is_empty,
  if◌then◌else◌,
}
use Prim.Native.Char.{code}
use Prim.Native.String.{char_at}
use pure_hypervisor_integrat.Prelude.Text.{fstring, join, str, strip}
use pure_hypervisor_integrat.Prelude.Cuts.{split, map_chars}
use pure_hypervisor_integrat.Array.Io.{pure, ◌>>=◌, ◌>>◌}
use pure_hypervisor_integrat.Proxmox.Session.{Outside, Act, emit, is_mock_or_dry}
use pure_hypervisor_integrat.Proxmox.Nodes.{ClusterNode}
use pure_hypervisor_integrat.Xcpng.Records.{parse_host_list}
use pure_hypervisor_integrat.Xcpng.Machines.{pool_master, xe, xe_get}

abbrev pool_node : String → String → ClusterNode
pool_node name host = record { name = name; host = host; online = true }

-- the uuids of a line of `--minimal`
unfoldable pub minimal_uuids : String → List String
unfolding split map_chars strip
minimal_uuids raw =
    select (λ u. if u == "" then false else true)
      (map strip (split 44 (map_chars (λ c. if eqb (code c) 10 then char_at "," 0 else c) raw)))

module _ (o : Outside) where
  -- the loop of `_list_nodes_via_param_get`
  unfoldable pub nodes_of_uuids : List String → Act (List ClusterNode)
  unfolding ◌>>=◌ xe_get
  nodes_of_uuids [] = pure []
  nodes_of_uuids (u ∷ uuids) =
      let rest = nodes_of_uuids uuids in
      do
        name ← xe_get o "host" u "name-label"
        addr ← xe_get o "host" u "address"
        more ← rest
        pure
            (pool_node (text_or (some name) u) (text_or (some addr) (text_or (some name) u)) ∷ more)

  -- `_list_nodes_via_param_get`
  unfoldable pub nodes_via_param_get : Act (List ClusterNode)
  unfolding ◌>>=◌ xe nodes_of_uuids minimal_uuids
  nodes_via_param_get = xe o "xe host-list --minimal" >>= λ raw. nodes_of_uuids (minimal_uuids raw)

  -- what is said of the nodes that have been found at last
  unfoldable pub told_nodes : String → List ClusterNode → Act (List ClusterNode)
  unfolding ◌>>=◌
  told_nodes master nodes =
      if is_empty nodes
      then emit (fstring ("No pool hosts parsed; falling back to single host " ∷ master ∷ []))
        >> pure (pool_node master master ∷ [])
      else emit (
          fstring (
            "Pool has "
            ∷ str (length nodes)
            ∷ " host(s): "
            ∷ join ", " (map (λ n. n.name) nodes)
            ∷ []))
        >> pure nodes

  -- `list_nodes`
  unfoldable pub list_pool_nodes : Act (List ClusterNode)
  unfolding ◌>>=◌ pool_master xe parse_host_list nodes_via_param_get told_nodes
  list_pool_nodes = do
    master ← pool_master o
    if is_mock_or_dry o
        then emit (fstring ("[mock] synthesizing 2-host pool for master " ∷ master ∷ []))
          >> pure (
              pool_node master master
              ∷ pool_node (fstring (master ∷ "-2" ∷ [])) (fstring (master ∷ "-2" ∷ []))
              ∷ [])
        else (do
          emit (fstring ("Listing pool hosts via master " ∷ master ∷ []))
          out ← xe o "xe host-list params=uuid,name-label,address"
          let parsed = parse_host_list out
          nodes ←
              if is_empty parsed
              then emit "Block parse empty; resolving pool hosts via per-uuid param-get"
                >> nodes_via_param_get
              else pure parsed
          told_nodes master nodes)
