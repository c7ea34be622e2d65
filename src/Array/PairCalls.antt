-- ===== src/Array/PairCalls.antt =====
-- `PureFlashArrayClient` of backend/phif/flasharray/client.py: protection groups, and the connection
-- and replication between two arrays.
use pure_hypervisor_integrat.Prelude.{
  String, ◌&&◌, Option, List, [], ◌∷◌, map, any, if◌then◌else◌, given, maybe, text_or, is_empty,
}
use pure_hypervisor_integrat.Prelude.Text.{fstring, lower, includes}
use pure_hypervisor_integrat.Array.Io.{pure, ◌>>=◌}
use pure_hypervisor_integrat.Array.Rest.{
  Item, Array, Rest, call, call_idempotent, get_network_interfaces, get_array_connections,
  get_connection_key, post_array_connection, delete_array_connection, post_protection_group,
  post_protection_group_volumes, post_protection_group_target, post_protection_group_snapshot,
  destroy_protection_group, delete_protection_group,
}
use pure_hypervisor_integrat.Array.HostCalls.{first_item, info}
use pure_hypervisor_integrat.Array.VolumeCalls.{clone_volume}

-- an entry of `list_array_connections`
pub record Peer : Type 0 where
  pub name : String
  pub management_address : String
  pub status : String
  pub kind : String

-- a remote name that is there and not empty, or else the connection's own
abbrev pub peer : Item → Peer
peer it = record {
  name = if given it.remote then text_or it.remote "" else text_or it.name "";
  management_address = text_or it.management_address "";
  status = text_or it.status "";
  kind = text_or it.kind "";
}

-- the addresses of the interfaces for replication, enabled or not
unfoldable pub replicating : List Item → List String
replicating [] = []
replicating (it ∷ items) =
    let rest = replicating items in
    if given it.address && any (λ s. includes (lower s) "replication") it.services
    then text_or it.address "" ∷ rest
    else rest

-- the suffix of the snapshot that is replicated
abbrev pub mig_suffix : String
mig_suffix = "mig"

module _ (array : Array) where
  -- `array_name`: the name of `info`
  unfoldable pub array_name : Rest (Option String)
  array_name = do i ← info array; pure i.name

  -- `list_array_connections`
  unfoldable pub list_array_connections : Rest (List Peer)
  list_array_connections = do items ← call array get_array_connections; pure (map peer items)

  -- `get_connection_key`
  unfoldable pub connection_key : Rest String
  connection_key = do
    items ← call array get_connection_key
    pure (maybe (first_item items) "" (λ i. text_or i.connection_key ""))

  -- `get_replication_addresses`
  unfoldable pub get_replication_addresses : Rest (List String)
  unfolding replicating
  get_replication_addresses = do items ← call array get_network_interfaces; pure (replicating items)

  -- `connect_to_array`
  unfoldable pub connect_to_array : String → String → List String → Rest (Unit {0})
  connect_to_array address key addresses = do
    _ ← call_idempotent array (post_array_connection address key addresses)
    pure tt

  -- `delete_array_connection`
  unfoldable pub remove_array_connection : String → Rest (Unit {0})
  remove_array_connection name = do
    _ ← call_idempotent array (delete_array_connection name)
    pure tt

  -- `replicate_volume_to`
  unfoldable pub replicate_volume_to : String → String → String → Rest String
  replicate_volume_to volume target pgroup = do
    _ ← call_idempotent array (post_protection_group pgroup)
    _ ← call_idempotent array (post_protection_group_volumes pgroup (volume ∷ []))
    _ ← call_idempotent array (post_protection_group_target pgroup target)
    _ ← call array (post_protection_group_snapshot pgroup mig_suffix)
    pure mig_suffix

  -- `import_replicated_volume`
  unfoldable pub import_replicated_volume :
      String → String → String → String → String → Rest (Unit {0})
  import_replicated_volume source_array pgroup snapshot member_volume dest =
      clone_volume array
        (fstring (source_array ∷ ":" ∷ pgroup ∷ "." ∷ snapshot ∷ "." ∷ member_volume ∷ [])) dest

  -- `cleanup_replication_pgroup`
  unfoldable pub cleanup_replication_pgroup : String → Rest (Unit {0})
  cleanup_replication_pgroup pgroup = do
    _ ← call_idempotent array (destroy_protection_group pgroup)
    _ ← call_idempotent array (delete_protection_group pgroup)
    pure tt

  -- `create_protection_group`
  unfoldable pub create_protection_group : String → List String → Rest (Unit {0})
  create_protection_group name volumes = do
    _ ← call array (post_protection_group name)
    let add = do _ ← call array (post_protection_group_volumes name volumes); pure tt
    if is_empty volumes then pure tt else add
