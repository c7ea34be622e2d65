-- ===== src/Proxmox/Trial.antt =====
-- Runs of the connector's functions, and its theorems at them.
use pure_hypervisor_integrat.Prelude.{
  String, true, false, ltb, none, some, List, [], ◌∷◌, ◌≡◌, refl, inl, inr, contains, if◌then◌else◌,
  ◌==◌, arith,
}
use pure_hypervisor_integrat.Prelude.Json.{no_fields}
use pure_hypervisor_integrat.Prelude.Text.{
  str, decimal, lower, strip, strip_left, strip_right, drop, starts_with, includes,
}
use pure_hypervisor_integrat.Prelude.Cuts.{
  cut, before, split, lines, trim, trim_left, trim_right, map_chars, all_chars, digits_only,
  digits_number, after_text, cut_last,
}
use pure_hypervisor_integrat.Prelude.Dict.{assign}
use pure_hypervisor_integrat.Prelude.Search.{first_free}
use pure_hypervisor_integrat.Migrate.Spec.{NicSpec, VmSpec}
use pure_hypervisor_integrat.Array.Io.{Answer, done}
use pure_hypervisor_integrat.Proxmox.Names.{
  squeeze, pve_vm_name, fa_name, normalize_wwn, pairs_of, array_mgmt_target, lock_timeout,
  names_lock_file, conf_follows, vm_char, fa_char, edge, is_dash,
}
use pure_hypervisor_integrat.Proxmox.Session.{
  Event, Ssh, FlashArray, refused, Outside, Session, locked_retry,
}
use pure_hypervisor_integrat.Proxmox.Retry.{runs, Tried, locked_retry-Tried}
use pure_hypervisor_integrat.Proxmox.Capture.{
  config_of, config_onto, boot_slots, read_net, net_parts,
}
use pure_hypervisor_integrat.Proxmox.Create.{counted, vm_name, pve_model, net_value, create_vm}
use pure_hypervisor_integrat.Proxmox.Disks.{prepare_copy_target}
use pure_hypervisor_integrat.Proxmox.Fresh.{Tidy, names-Tidy, prepare_copy_target-Free}
use pure_hypervisor_integrat.Proxmox.Nets.{read_net-net_value}
use pure_hypervisor_integrat.Proxmox.DryRun.{Line, provisioning, act, act-Line}
use pure_hypervisor_integrat.Proxmox.Doing.{Does, Ends}
use pure_hypervisor_integrat.Proxmox.Nodes.{ClusterNode}
use pure_hypervisor_integrat.Proxmox.Setup.{Plugin, deploy_integration}
use pure_hypervisor_integrat.Proxmox.Preflight.{CutOff, Probes, deploy_integration-Refused}
use pure_hypervisor_integrat.Proxmox.Refusal.{Asks, Refused, create_vm-Refused}

name_of_a_vm : pve_vm_name " AlmaLinux 8 (new)" ≡ "AlmaLinux-8-new"
unfolding pve_vm_name strip strip_left strip_right map_chars squeeze trim trim_left trim_right
    starts_with
name_of_a_vm = refl

name_of_a_host : fa_name "192.0.2.58" ≡ "192-0-2-58"
unfolding fa_name map_chars trim trim_left trim_right
name_of_a_host = refl

bare_wwn : normalize_wwn "0x21000024FF000001" ≡ "21:00:00:24:ff:00:00:01"
unfolding normalize_wwn strip strip_left strip_right lower drop starts_with includes all_chars
    pairs_of
bare_wwn = refl

array_url : array_mgmt_target "https://10.0.0.5:8443/api" ≡ some ("10.0.0.5", 8443)
unfolding array_mgmt_target strip strip_left strip_right trim trim_left trim_right after_text before
    cut cut_last digits_only digits_number all_chars drop starts_with
array_url = refl

held_lock : lock_timeout "can't open: LOCK-105.conf is held" ≡ true
unfolding lock_timeout lower includes names_lock_file conf_follows starts_with drop
held_lock = refl

abbrev vm_settings : List (String × String)
vm_settings =
    ("boot", "order=scsi0;net0") ∷ ("cores", "4") ∷ ("scsi0", "purefa:vm-7-disk-0,size=8G") ∷ []

settings_read :
    config_of "boot: order=scsi0;net0\ncores: 4\r\nscsi0: purefa:vm-7-disk-0,size=8G\n"
    ≡ vm_settings
unfolding config_of config_onto lines cut assign strip strip_left strip_right starts_with
settings_read = refl

boot_order_read : boot_slots vm_settings ≡ "scsi0" ∷ "net0" ∷ []
unfolding boot_slots after_text before cut split drop starts_with
boot_order_read = refl

-- an interface of the model e1000e loses its mac
model_not_known : (read_net 0 "e1000e=AA:BB,bridge=vmbr1").mac ≡ ""
unfolding read_net net_parts split cut
model_not_known = refl

second_copy : vm_name ("web" ∷ "web-2" ∷ []) "web" ≡ "web-3"
unfolding vm_name counted first_free pve_vm_name strip strip_left strip_right map_chars squeeze trim
    trim_left trim_right starts_with str decimal
second_copy = refl

-- a node whose lock is held for two runs
abbrev busy_shell : List Event → Ssh → Answer String
busy_shell past c =
    if ltb (runs past) 2
    then done "trying to acquire lock... got timeout"
    else done "name: db\ncores: 4"

abbrev two_copies : List String
two_copies = "vm-9/vm-9-disk-0" ∷ "vm-9/vm-9-disk-1" ∷ []

abbrev copies_array : FlashArray
copies_array = record {
  endpoint = some "10.0.0.5";
  exists = λ past name. done (contains name two_copies);
  volume = λ past name. done (some none);
  act = λ past call. done tt;
}

abbrev busy_node : Outside
busy_node = record {
  target = record {
    protocol = none;
    storage_id = none;
    node_host = some "pve1";
    pool_master_host = none;
    host = none;
    sr_name = none;
    host_group = none;
  };
  dry_run = false;
  mock = false;
  shell = busy_shell;
  loads = λ raw. refused "Expecting value";
  printed = λ v. "";
  class_name = λ e. "RuntimeError";
  quoted = λ t. t;
  array = some copies_array;
}

abbrev new_session : Session
new_session = record {
  events = [];
  host_override = none;
  boot_order = "";
  cursor = 0;
  reachable = none;
}

abbrev config_command : Ssh
config_command = record { host = "pve1"; lines = "qm config 9" ∷ []; check = false; timeout = none }

locked_retry-Tried_example :
    Tried 6 30 config_command new_session (locked_retry busy_node config_command new_session)
locked_retry-Tried_example = locked_retry-Tried busy_node config_command new_session

names-Tidy_example :
    Tidy vm_char edge (pve_vm_name "-My VM.") × Tidy fa_char is_dash (fa_name "10.0.0.1")
names-Tidy_example = names-Tidy "-My VM." "10.0.0.1"

prepare_copy_target-Free_example :
    (target : String) × (s' : Session) × (prepare_copy_target busy_node 2 0 "9" new_session
      ≡ (done target, s'))
    × (contains target two_copies ≡ false)
prepare_copy_target-Free_example =
    prepare_copy_target-Free busy_node copies_array two_copies 2 0 "9" new_session refl
      (λ past name. refl) (λ past group. refl) (omega arith)

abbrev e1000_nic : NicSpec
e1000_nic = record { mac = "AA:BB:CC:00:00:02"; source_network = "lan"; model = "E1000"; order = 1 }

read_net-net_value_example : read_net 1 (net_value e1000_nic "vmbr0") ≡ record {
  mac = "AA:BB:CC:00:00:02";
  source_network = "vmbr0";
  model = pve_model "E1000";
  order = 1;
}
unfolding pve_model lower all_chars
read_net-net_value_example = read_net-net_value e1000_nic "vmbr0" refl refl refl

abbrev wired_spec : VmSpec
wired_spec = record {
  name = "db";
  source_ref = "1";
  vcpus = 2;
  memory_bytes = 4294967296;
  firmware = "bios";
  secure_boot = false;
  disks = [];
  nics = e1000_nic ∷ [];
  guest_os_hint = "";
  raw = no_fields;
}

create_vm-Refused_example :
    Ends Asks new_session (create_vm busy_node wired_spec (("dmz", "vmbr1") ∷ []) new_session)
    × Refused ((create_vm busy_node wired_spec (("dmz", "vmbr1") ∷ []) new_session).0)
create_vm-Refused_example =
    create_vm-Refused busy_node (("dmz", "vmbr1") ∷ []) wired_spec new_session (inl refl)

abbrev planned : Outside
planned = record busy_node { dry_run = true }

act-Line_example : Does Line (act planned (provisioning "db" "1T" "" "105" "scsi1" ""))
act-Line_example = act-Line planned refl (provisioning "db" "1T" "" "105" "scsi1" "")

-- the array cannot be reached from pve2
abbrev firewalled : Outside
firewalled = record busy_node {
  shell = λ past c. done (if c.host == "pve2" then "ARRAY_FAIL" else "ARRAY_OK");
}

abbrev two_nodes : List ClusterNode
two_nodes =
    record { name = "one"; host = "pve1"; online = true }
    ∷ record { name = "two"; host = "pve2"; online = true }
    ∷ []

abbrev perl_plugin : Plugin
perl_plugin = record { source = "package PVE::Storage::Custom::PureFAPlugin;"; chars = 43 }

second_node-CutOff :
    CutOff firewalled "10.0.0.5" 443 (record { name = "two"; host = "pve2"; online = true })
unfolding includes starts_with drop
second_node-CutOff past = ("ARRAY_FAIL", refl, refl)

plain_address : array_mgmt_target "10.0.0.5" ≡ some ("10.0.0.5", 443)
unfolding array_mgmt_target strip strip_left strip_right trim trim_left trim_right after_text before
    cut cut_last digits_only digits_number all_chars drop starts_with
plain_address = refl

deploy_integration-Refused_example :
    Ends
      (Probes firewalled "10.0.0.5" 443)
      new_session
      (deploy_integration firewalled "/plugin.pm" (some perl_plugin) (some two_nodes) new_session)
    × Refused (
        (deploy_integration firewalled "/plugin.pm"
          (some perl_plugin)
          (some two_nodes)
          new_session).0)
deploy_integration-Refused_example =
    deploy_integration-Refused firewalled "10.0.0.5" 443 refl copies_array "/plugin.pm" perl_plugin
      two_nodes new_session refl plain_address (inr (inl second_node-CutOff))
