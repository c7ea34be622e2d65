-- ===== src/Xcpng/Trial.antt =====
-- Runs of the connector's functions, and its theorems at them.
use pure_hypervisor_integrat.Prelude.{true, false, some, none, List, [], ◌∷◌, ◌≡◌, refl}
use pure_hypervisor_integrat.Prelude.Cuts.{lines, trim_left}
use pure_hypervisor_integrat.Prelude.Dict.{assign}
use pure_hypervisor_integrat.Prelude.Text.{
  strip, strip_left, strip_right, drop, starts_with, includes,
}
use pure_hypervisor_integrat.Array.Io.{done}
use pure_hypervisor_integrat.Proxmox.Session.{Outside, refused}
use pure_hypervisor_integrat.Proxmox.Doing.{Does}
use pure_hypervisor_integrat.Xcpng.Records.{
  Record, key_span, past, field_of, fields_of, grouped, parse_records,
}
use pure_hypervisor_integrat.Xcpng.Disks.{chosen_sr, second_word, printed_vdi}
use pure_hypervisor_integrat.Xcpng.Grouping.{flat, grouped-flat}
use pure_hypervisor_integrat.Xcpng.Removal.{delete_pool_vm}
use pure_hypervisor_integrat.Xcpng.Sparing.{OnlyForgets, delete_pool_vm-OnlyForgets}

abbrev two_hosts : List Record
two_hosts =
    (("uuid", "a1") ∷ ("name-label", "xen 1") ∷ ("address", "10.0.0.1") ∷ [])
    ∷ (("uuid", "b2") ∷ ("name-label", "xen-2") ∷ [])
    ∷ []

hosts_read :
    parse_records
      "uuid ( RO)                : a1\n          name-label ( RW): xen 1 \n address ( RO): 10.0.0.1\n\n\nuuid ( RO) : b2\nname-label( RW):xen-2\n"
    ≡ two_hosts
unfolding parse_records fields_of field_of key_span past grouped lines assign strip strip_left
    strip_right starts_with
hosts_read = refl

repository_of_group :
    chosen_sr "prod" "" ("SR u1 :: hg: test" ∷ "x" ∷ "SR u2 :: host_group: prod" ∷ []) ≡ "u2"
unfolding chosen_sr second_word starts_with includes trim_left drop
repository_of_group = refl

last_vdi : printed_vdi "" (" VDI=1 " ∷ "done" ∷ "VDI=2" ∷ []) ≡ "2"
unfolding printed_vdi starts_with strip strip_left strip_right drop
last_vdi = refl

grouped-flat_example : grouped [] (flat two_hosts) ≡ two_hosts
grouped-flat_example = grouped-flat two_hosts ((refl, refl), ((refl, refl), tt))

abbrev quiet_pool : Outside
quiet_pool = record {
  target = record {
    protocol = none;
    storage_id = none;
    node_host = none;
    pool_master_host = some "xen1";
    host = none;
    sr_name = none;
    host_group = none;
  };
  dry_run = false;
  mock = false;
  shell = λ past c. done "uuid ( RO): v1\nvdi-uuid ( RO): d1\n";
  loads = λ raw. refused "Expecting value";
  printed = λ v. "";
  class_name = λ e. "RuntimeError";
  quoted = λ t. t;
  array = none;
}

delete_pool_vm-OnlyForgets_example :
    Does (OnlyForgets quiet_pool "vm1" true) (delete_pool_vm quiet_pool "vm1" true)
delete_pool_vm-OnlyForgets_example = delete_pool_vm-OnlyForgets quiet_pool "vm1" true
