-- ===== src/Array/HostCalls.antt =====
-- `PureFlashArrayClient` of backend/phif/flasharray/client.py: the array's identity, its hosts and host
-- groups, its ports, and its files.
use pure_hypervisor_integrat.Prelude.{
  String, Bool, true, not, ◌||◌, ◌&&◌, ◌==◌, Option, none, some, List, [], ◌∷◌, map, any, contains,
  is_empty, if◌then◌else◌, given, flag_or, maybe, text_or,
}
use pure_hypervisor_integrat.Prelude.Text.{fstring, repr, starts_with, sorted_set}
use pure_hypervisor_integrat.Array.Hosts.{Initiators, wanted, asks_nothing, first_owner}
use pure_hypervisor_integrat.Array.Io.{Fault, api_error, done, answered, pure, raise, ◌>>=◌, ◌>>◌}
use pure_hypervisor_integrat.Array.Rest.{
  Item, Array, Rest, call, call_idempotent, get_arrays, get_controllers, post_api_token,
  delete_api_token, post_host, patch_host, get_hosts, get_hosts_named, post_host_group,
  post_host_group_host, get_host_group_hosts, delete_host_group_host, delete_host,
  delete_host_group, get_network_interfaces, get_ports, post_file_system, destroy_file_system,
  delete_file_system, post_directory, post_directory_export, get_directory_exports,
  delete_directory_export,
}

-- `items[0] if items else None`
abbrev pub first_item : List Item → Option Item
first_item [] = none
first_item (i ∷ items) = some i

-- the texts that are there and not empty
unfoldable pub present : List (Option String) → List String
present [] = []
present (o ∷ os) = let rest = present os in if given o then text_or o "" ∷ rest else rest

-- the answer of `info`
pub record ArrayInfo : Type 0 where
  pub name : Option String
  pub model : Option String
  pub version : Option String
  pub id : Option String

-- the first model that a controller has
unfoldable pub first_model : List Item → Option String
first_model [] = none
first_model (c ∷ controllers) =
    let later = first_model controllers in if given c.model then c.model else later

-- the answer of `get_host`
pub record HostInfo : Type 0 where
  pub name : String
  pub initiators : Initiators
  pub host_group : Option String

-- the addresses of the enabled interfaces that offer a service
unfoldable pub serving : (List String → Bool) → List Item → List String
serving offers [] = []
serving offers (i ∷ items) =
    let rest = serving offers items in
    if flag_or i.enabled true && (offers i.services && given i.address)
    then text_or i.address "" ∷ rest
    else rest

-- the exports of a file system, or all of them, each with its directory
unfoldable pub exports_of : Option String → List Item → List (Option String × String)
exports_of filesystem [] = []
exports_of filesystem (e ∷ items) =
    let rest = exports_of filesystem items in
    let fs = text_or e.directory "" in
    let kept = (e.export_name, fs) ∷ rest in
    if given filesystem && not (starts_with fs (fstring (text_or filesystem "" ∷ ":" ∷ [])))
    then rest
    else kept

-- the answer of `get_target_ports`
pub record Targets : Type 0 where
  pub iqn : Option String
  pub nqn : Option String
  pub wwns : List String

abbrev pub first_text : List String → Option String
first_text [] = none
first_text (s ∷ ss) = some s

module _ (array : Array) where
  -- the models of the controllers; an exception of any kind is none
  unfoldable pub controller_model : Rest (Option String)
  unfolding first_model
  controller_model past =
      let (answer, past') = call array get_controllers past in
      (done (answered none first_model answer), past')

  -- `info`, `connect`
  unfoldable pub info : Rest ArrayInfo
  unfolding controller_model
  info = do
    arrays ← call array get_arrays
    model ← controller_model
    let a = first_item arrays
    pure (record {
      name = maybe a none (λ i. i.name);
      model = model;
      version = maybe a none (λ i. i.version);
      id = maybe a none (λ i. i.id);
    })

  -- the token of the first item; without an item `items[0]` raises
  abbrev pub token_of : String → List Item → Rest String
  token_of username [] = raise (Fault.other_fault "IndexError")
  token_of username (i ∷ items) =
      if given i.token
      then pure (text_or i.token "")
      else raise (api_error (fstring ("No token returned for user " ∷ repr username ∷ [])))

  -- `create_api_token`
  unfoldable pub create_api_token : String → Rest String
  create_api_token username = do
    items ← call array (post_api_token username)
    token_of username items

  -- `delete_api_token`
  unfoldable pub remove_api_token : String → Rest (Unit {0})
  remove_api_token username = do _ ← call array (delete_api_token username); pure tt

  abbrev pub no_initiator : Initiators → Bool
  no_initiator i = is_empty i.iqns && (is_empty i.wwns && is_empty i.nqns)

  -- `create_host`
  unfoldable pub create_host : String → Initiators → Rest (Unit {0})
  create_host name i = do
    _ ← call_idempotent array (post_host name i)
    let patch = do _ ← call_idempotent array (patch_host name i); pure tt
    if no_initiator i then pure tt else patch

  -- `find_host_by_initiator`
  unfoldable pub find_host_by_initiator : Initiators → Rest (Option String)
  find_host_by_initiator asked =
      let search_hosts = (do
        items ← call array get_hosts
        pure (first_owner (wanted asked) (map (λ (h : Item). (h.name, h.initiators)) items))) in
      if asks_nothing (wanted asked) then pure none else search_hosts

  -- `ensure_host`
  unfoldable pub ensure_host : String → Initiators → Rest String
  unfolding create_host find_host_by_initiator
  ensure_host name i = do
    existing ← find_host_by_initiator i
    let new = do create_host name i; pure name
    if given existing then pure (text_or existing "") else new

  -- `get_host`
  unfoldable pub get_host : String → Rest (Option HostInfo)
  get_host name = do
    items ← call array (get_hosts_named name)
    pure (
        maybe (first_item items) none (λ h. some (record {
          name = maybe h.name name (λ n. n);
          initiators = h.initiators;
          host_group = h.host_group;
        })))

  -- the loop of `create_host_group`
  unfoldable pub add_hosts : String → List String → Rest (Unit {0})
  add_hosts group [] = pure tt
  add_hosts group (h ∷ hosts) = do
    _ ← call_idempotent array (post_host_group_host group h)
    add_hosts group hosts

  -- `create_host_group`
  unfoldable pub create_host_group : String → List String → Rest (Unit {0})
  unfolding add_hosts
  create_host_group group hosts = do
    _ ← call_idempotent array (post_host_group group)
    add_hosts group hosts

  -- `get_host_group_members`: the name of the member, or of a record without one
  unfoldable pub get_host_group_members : String → Rest (List String)
  unfolding present
  get_host_group_members group = do
    items ← call array (get_host_group_hosts group)
    pure (present (map (λ (m : Item). maybe m.member m.name (λ n. some n)) items))

  -- `remove_host_from_group`
  unfoldable pub remove_host_from_group : String → String → Rest (Unit {0})
  remove_host_from_group group host = do
    _ ← call_idempotent array (delete_host_group_host group host)
    pure tt

  -- `delete_host`
  unfoldable pub remove_host : String → Rest (Unit {0})
  remove_host name = do _ ← call_idempotent array (delete_host name); pure tt

  -- `delete_host_group`
  unfoldable pub remove_host_group : String → Rest (Unit {0})
  remove_host_group name = do _ ← call_idempotent array (delete_host_group name); pure tt

  -- `get_data_interfaces`
  unfoldable pub get_data_interfaces : String → Rest (List String)
  unfolding serving
  get_data_interfaces service = do
    items ← call array get_network_interfaces
    pure (serving (λ services. contains service services) items)

  -- `get_target_ports`
  unfoldable pub get_target_ports : Rest Targets
  unfolding present
  get_target_ports = do
    items ← call array get_ports
    pure (record {
      iqn = first_text (present (map (λ (p : Item). p.port_iqn) items));
      nqn = first_text (present (map (λ (p : Item). p.port_nqn) items));
      wwns = sorted_set (present (map (λ (p : Item). p.port_wwn) items));
    })

  -- `create_filesystem`
  unfoldable pub create_filesystem : String → Rest (Unit {0})
  create_filesystem name = do _ ← call_idempotent array (post_file_system name); pure tt

  -- `delete_filesystem`
  unfoldable pub remove_filesystem : String → Bool → Rest (Unit {0})
  remove_filesystem name eradicate = do
    _ ← call_idempotent array (destroy_file_system name)
    let gone = do _ ← call_idempotent array (delete_file_system name); pure tt
    if eradicate then gone else pure tt

  -- `create_nfs_export`
  unfoldable pub create_nfs_export : String → String → String → Option String → Rest (Unit {0})
  create_nfs_export name filesystem path policy = do
    let dir_name = fstring (filesystem ∷ ":" ∷ name ∷ [])
    _ ← call_idempotent array (post_directory dir_name path)
    _ ← call_idempotent array (post_directory_export dir_name name (text_or policy "nfs-default"))
    pure tt

  -- `get_nfs_exports`
  unfoldable pub get_nfs_exports : Option String → Rest (List (Option String × String))
  unfolding exports_of
  get_nfs_exports filesystem = do
    items ← call array get_directory_exports
    pure (exports_of filesystem items)

  -- `delete_nfs_export`
  unfoldable pub remove_nfs_export : String → Rest (Unit {0})
  remove_nfs_export name = do _ ← call_idempotent array (delete_directory_export name); pure tt

  -- `get_nfs_data_interfaces`
  unfoldable pub get_nfs_data_interfaces : Rest (List String)
  unfolding serving
  get_nfs_data_interfaces = do
    items ← call array get_network_interfaces
    pure (serving (λ services. any (λ s. s == "nfs" || s == "file") services) items)
