-- ===== src/Array/Rest.antt =====
-- The requests of `PureFlashArrayClient` of backend/phif/flasharray/client.py, and `_call` and
-- `_call_idempotent`. The array behind the SDK is a parameter: its reply to a request may depend on all
-- requests before it, the newest first.
use pure_hypervisor_integrat.Prelude.{
  ℕ, String, Bool, false, ◌||◌, leb, Option, none, some, List, [], ◌∷◌, if◌then◌else◌,
}
use pure_hypervisor_integrat.Prelude.Text.{fstring, str, lower, includes}
use pure_hypervisor_integrat.Array.Hosts.{Initiators}
use pure_hypervisor_integrat.Array.Io.{api_error, other_fault, Answer, done, failed, Io}

-- a request, by the SDK's method and the arguments that the client gives
pub data Request : Type 0 where
  get_arrays : Request
  get_controllers : Request
  post_api_token : String → Request
  delete_api_token : String → Request
  post_host : String → Initiators → Request
  patch_host : String → Initiators → Request
  get_hosts : Request
  get_hosts_named : String → Request
  post_host_group : String → Request
  post_host_group_host : String → String → Request
  get_host_group_hosts : String → Request
  delete_host_group_host : String → String → Request
  delete_host : String → Request
  delete_host_group : String → Request
  get_network_interfaces : Request
  get_ports : Request
  post_file_system : String → Request
  destroy_file_system : String → Request
  delete_file_system : String → Request
  post_directory : String → String → Request
  post_directory_export : String → String → String → Request
  get_directory_exports : Request
  delete_directory_export : String → Request
  post_volume : String → ℕ → Request
  post_volume_from : String → String → Option Bool → Request
  get_volumes : Request
  get_volumes_named : String → Request
  get_volumes_destroyed : String → Request
  get_volumes_filtered : String → Request
  get_volume_tags : String → String → Request
  patch_volume_size : String → ℕ → Request
  patch_volume_name : String → String → Request
  patch_volume_qos : String → Option ℕ → Option ℕ → Request
  destroy_volume : String → Request
  eradicate_volume : String → Request
  post_volume_snapshot : String → Option String → Request
  post_volume_group : String → Request
  get_connections : String → Request
  post_connection : String → String → Request
  delete_connection : String → String → Request
  post_group_connection : String → String → Request
  delete_group_connection : String → String → Request
  get_array_connections : Request
  get_connection_key : Request
  post_array_connection : String → String → List String → Request
  delete_array_connection : String → Request
  post_protection_group : String → Request
  post_protection_group_volumes : String → List String → Request
  post_protection_group_target : String → String → Request
  post_protection_group_snapshot : String → String → Request
  destroy_protection_group : String → Request
  delete_protection_group : String → Request

-- the attributes of an item of a reply that the client reads, by `getattr(…, None)`
pub record Item : Type 0 where
  pub name : Option String
  pub model : Option String
  pub version : Option String
  pub id : Option String
  pub token : Option String
  pub initiators : Initiators
  pub host_group : Option String
  pub member : Option String
  pub enabled : Option Bool
  pub services : List String
  pub address : Option String
  pub port_iqn : Option String
  pub port_nqn : Option String
  pub port_wwn : Option String
  pub directory : Option String
  pub export_name : Option String
  pub serial : Option String
  pub provisioned : Option ℕ
  pub destroyed : Option Bool
  pub key : Option String
  pub value : Option String
  pub resource : Option String
  pub host : Option String
  pub remote : Option String
  pub management_address : Option String
  pub status : Option String
  pub kind : Option String
  pub connection_key : Option String

-- the SDK's response, or an exception that it raises
pub data Reply : Type 0 where
  response : ℕ → String → List Item → Reply
  broken : String → Reply

abbrev pub Requests : Type 0
Requests = List Request

abbrev pub Array : Type 0
Array = Request → Requests → Reply

abbrev pub Rest : Type 0 → Type 0
Rest A = Io Requests A

-- what `_call` makes of a response
unfoldable pub judge : Reply → Answer (List Item)
judge (broken e) = failed (other_fault e)
judge (response status errors items) =
    if leb 400 status
    then failed (api_error (fstring ("FlashArray API error " ∷ str status ∷ ": " ∷ errors ∷ [])))
    else done items

-- whether `_call_idempotent` takes an error for a success
abbrev pub benign : String → Bool
benign message =
    let msg = lower message in
    if includes msg "does not exist" || includes msg "not exist"
    then false
    else includes msg "already"

-- what `_call_idempotent` makes of an answer
unfoldable pub forgive : Answer (List Item) → Answer (Option (List Item))
forgive (done items) = done (some items)
forgive (failed (api_error e)) = if benign e then done none else failed (api_error e)
forgive (failed (other_fault e)) = failed (other_fault e)

module _ (array : Array) where
  -- `_call`
  unfoldable pub call : Request → Rest (List Item)
  unfolding judge
  call request past = (judge (array request past), request ∷ past)

  -- `_call_idempotent`
  unfoldable pub call_idempotent : Request → Rest (Option (List Item))
  unfolding forgive judge
  call_idempotent request past = (forgive (judge (array request past)), request ∷ past)
