-- ===== src/Migrate/World.antt =====
-- What the orchestrator of migrate/service.py meets outside itself: the two connectors and their
-- arrays, behind the interface of connectors/base.py and flasharray/client.py, and the record of all
-- that was asked of them. A connector may answer by anything that happened before.
use pure_hypervisor_integrat.Prelude.{ℕ, String, Bool, Option, List}
use pure_hypervisor_integrat.Migrate.Spec.{DiskSpec, VmSpec}

-- which of the two hypervisors
pub data Side : Type 0 where
  source dest : Side

-- `MigrationError`, or any other exception by its type's name and its text
pub data Error : Type 0 where
  migration_error : String → Error
  other_error : String → String → Error

pub data Result (A : Type 0) : Type 0 where
  ok : A → Result A
  err : Error → Result A

-- `OpResult`, with the one artifact that the orchestrator reads
pub record Reply : Type 0 where
  pub success : Bool
  pub message : String
  pub vm_ref : Option String

-- the placement that `create_vm` is given, with the absent choices left out
pub record Placement : Type 0 where
  pub cluster : Option String
  pub storage : Option String
  pub convert_to_vmfs : Bool
  pub vmfs_datastore : Option String

-- what `get_volume` tells of a volume
pub record Volume : Type 0 where
  pub destroyed : Bool
  pub serial : Option String
  pub size : Option ℕ

-- a call of a connector or of its array
pub data Call : Type 0 where
  validate_connection : Side → Call
  require_host_objects : String → Call
  list_networks : Call
  list_vms : Call
  capture_vm_spec : String → Call
  get_volume : String → Call
  power_state : Side → String → Call
  array_name : Side → Call
  list_array_connections : Call
  get_connection_key : Call
  get_replication_addresses : Call
  prepare_source_disks : VmSpec → Call
  cleanup_migration_scratch : VmSpec → Call
  create_vm : VmSpec → List (String × String) → Option Placement → Call
  stop_vm : Side → String → Bool → Call
  start_vm : Side → String → Call
  delete_vm : Side → String → Bool → Call
  create_managed_disk : String → ℕ → ℕ → Bool → Call
  connect_to_array : String → String → List String → Call
  replicate_volume_to : String → String → String → Call
  copy_volume : String → String → Bool → Call
  cleanup_replication_pgroup : String → Call
  finalize_destination_disks : String → List DiskSpec → Call
  convert_disks_to_native : String → List DiskSpec → Option String → Call
  set_boot_order : String → List DiskSpec → Call
  disconnect_volume_from_group : String → String → Call
  delete_volume : String → Bool → Call

-- how a call ended: it returned a success, a refusal (`OpResult.success` false), or raised
pub data Outcome : Type 0 where
  succeeded refused raised : Outcome

pub data Event : Type 0 where
  logged : String → Event
  phase : String → Option VmSpec → Option String → Event
  slept : ℕ → Event
  called : Call → Outcome → Event
  -- the answer of `power_state`, in lower case
  observed : Side → String → String → Event

-- the newest event first
abbrev pub Trace : Type 0
Trace = List Event

-- Two connectors and their arrays. Times are in milliseconds.
pub record Connectors : Type 0 where
  pub key : Side → String
  pub supports_migrate : Side → Bool
  pub has_array : Side → Bool
  pub manages_volume_presentation : Bool
  -- `ctx.dry_run`, `runner.mock` and `runner.dry_run` of a connector
  pub ctx_dry_run : Side → Bool
  pub runner_mock : Side → Bool
  pub runner_dry_run : Side → Bool
  pub migration_host_group : Side → String
  pub endpoint : String
  -- the answer of a call that returns an `OpResult`
  pub reply : Trace → Call → Result Reply
  -- the answer of a call that returns nothing
  pub effect : Trace → Call → Result (Unit {0})
  -- the answer of a call that returns a text
  pub answer : Trace → Call → Result String
  pub state : Trace → Side → String → Result (Option String)
  -- the ids and the names of networks, and the names of VMs and of array connections
  pub networks : Trace → Result (List (Option String × Option String))
  pub vms : Trace → Result (List (Option String))
  pub connections : Trace → Result (List (Option String))
  pub addresses : Trace → Result (List String)
  pub captured : Trace → String → Result VmSpec
  pub prepared : Trace → VmSpec → Result (Option VmSpec)
  pub volume : Trace → String → Result (Option Volume)
