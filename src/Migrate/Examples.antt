-- ===== src/Migrate/Examples.antt =====
-- Two connectors whose calls all succeed, runs of the orchestrator against them, and the theorems at
-- these runs.
use pure_hypervisor_integrat.Prelude.Json.{Fields, no_fields}
use pure_hypervisor_integrat.Migrate.Fresh.{NamedBy, ensure_unique_dest_name-NamedBy}
use pure_hypervisor_integrat.Migrate.Destination.{ensure_unique_dest_name}
use pure_hypervisor_integrat.Migrate.Act.{State}
use pure_hypervisor_integrat.Migrate.Dicts.{to_dict, from_dict}
use pure_hypervisor_integrat.Migrate.RoundTrip.{from_dict-to_dict}
use pure_hypervisor_integrat.Prelude.{String, ◌≡◌, refl, true, false, none, some, [], ◌∷◌}
use pure_hypervisor_integrat.Prelude.Text.{lower}
use pure_hypervisor_integrat.Migrate.Spec.{DiskSpec, VmSpec}
use pure_hypervisor_integrat.Migrate.World.{Side, source, dest, ok, Reply, Connectors}
use pure_hypervisor_integrat.Migrate.Service.{
  Options, Config, fresh, mode, is_move, dry_run, is_mock,
}
use pure_hypervisor_integrat.Migrate.Run.{body, run}
use pure_hypervisor_integrat.Api.Migrations.{Migration, pending_row}
use pure_hypervisor_integrat.Api.Closing.{migration_job}
use pure_hypervisor_integrat.Api.Closed.{Closed, migration_job-Closed}
use pure_hypervisor_integrat.Migrate.Outcome.{Ended, run-Ended}
use pure_hypervisor_integrat.Migrate.Safety.{
  Harmless, NeedsRemoval, NeedsRest, Whenever, volume_deleted_only_after_removal, copy_only_at_rest,
  dry_run-Harmless,
}

abbrev web_disk : DiskSpec
web_disk = record {
  identity = record {
    fa_volume = "vm-7/disk0";
    serial = some "A1";
    wwid = none;
    size_bytes = some 1024;
  };
  bus = "scsi";
  order = 0;
  boot = true;
  source_ref = "scsi0";
}

abbrev web : VmSpec
web = record {
  name = "web";
  source_ref = "7";
  vcpus = 2;
  memory_bytes = 1048576;
  firmware = "bios";
  secure_boot = false;
  disks = web_disk ∷ [];
  nics = record { mac = "aa:bb"; source_network = "lan"; model = "virtio"; order = 0 } ∷ [];
  guest_os_hint = "";
  raw = Fields.no_fields;
}

abbrev done : Reply
done = record { success = true; message = ""; vm_ref = some "101" }

-- the source reports itself stopped and the destination running
abbrev power : Side → String
power source = "stopped"
power dest = "running"

abbrev willing : Connectors
willing = record {
  key = λ _. "mock";
  supports_migrate = λ _. true;
  has_array = λ _. true;
  manages_volume_presentation = false;
  ctx_dry_run = λ _. false;
  runner_mock = λ _. false;
  runner_dry_run = λ _. false;
  migration_host_group = λ _. "hg";
  endpoint = "10.0.0.2";
  reply = λ t call. ok done;
  effect = λ t call. ok tt;
  answer = λ t call. ok "vol-x";
  state = λ t side ref. ok (some (power side));
  networks = λ t. ok ((some "net1", some "LAN") ∷ []);
  vms = λ t. ok (some "web" ∷ []);
  connections = λ t. ok [];
  addresses = λ t. ok [];
  captured = λ t ref. ok web;
  prepared = λ t v. ok none;
  volume = λ t name. ok (some (record { destroyed = false; serial = some "A1"; size = some 1024 }));
}

abbrev defaults : Options
defaults = record {
  mode = none;
  cross_array = none;
  dry_run = none;
  convert_to_vmfs = none;
  shutdown_source = none;
  force_stop = none;
  allow_array_connect = none;
  power_on = none;
  dest_cluster = none;
  dest_storage = none;
  vmfs_datastore = none;
  poll_attempts = none;
  poll_delay = none;
  start_attempts = none;
  start_poll_attempts = none;
  start_poll_delay = none;
  replication_settle = none;
}

abbrev job : Options → Config
job o = record { vm_ref = "7"; network_map = ("lan", "net1") ∷ []; options = o }

volume_deleted_only_after_removal_example :
    Whenever (NeedsRemoval (job defaults)) (run willing (job defaults) fresh).1.trace
volume_deleted_only_after_removal_example = volume_deleted_only_after_removal willing (job defaults)

copy_only_at_rest_example :
    Whenever (NeedsRest (job defaults)) (run willing (job defaults) fresh).1.trace
unfolding is_move mode lower is_mock
copy_only_at_rest_example = copy_only_at_rest willing (job defaults) refl refl

abbrev planned : Options
planned = record defaults { dry_run = some true }

dry_run-Harmless_example :
    Whenever (λ call _. Harmless call) (run willing (job planned) fresh).1.trace
unfolding dry_run
dry_run-Harmless_example = dry_run-Harmless willing (job planned) refl

abbrev copied : Options
copied = record defaults { mode = some "Copy" }

run-Ended_example :
    Ended (job defaults) (body willing (job defaults) fresh) (run willing (job defaults) fresh)
run-Ended_example = run-Ended willing (job defaults) fresh

from_dict-to_dict_example : from_dict (to_dict web) ≡ some web
from_dict-to_dict_example = from_dict-to_dict web

abbrev web_row : String → Migration
web_row id = pending_row id "h1" "h2" "7" no_fields no_fields

migration_job-Closed_example :
    Closed "m1"
      (body willing (job defaults) fresh).0
      (run willing (job defaults) fresh).1.spec
      (web_row "m1" ∷ web_row "m2" ∷ [])
      (migration_job willing
        (job defaults)
        (λ n k. false)
        (λ k. true)
        "m1"
        (web_row "m1" ∷ web_row "m2" ∷ []))
migration_job-Closed_example =
    migration_job-Closed willing (job defaults) (λ n k. false) (λ k. true) refl "m1"
      (web_row "m1" ∷ web_row "m2" ∷ [])

abbrev captured_state : State
captured_state = record fresh { spec = some web }

ensure_unique_dest_name-NamedBy_example :
    NamedBy web (ok (some "web" ∷ [])) (ensure_unique_dest_name willing captured_state)
ensure_unique_dest_name-NamedBy_example =
    ensure_unique_dest_name-NamedBy willing web captured_state refl
