-- ===== src/Array/Trial.antt =====
-- An array with two hosts in two groups, arrays that take every request, and the theorems at them.
use pure_hypervisor_integrat.Prelude.{
  String, ◌≡◌, refl, true, false, ◌==◌, some, List, [], ◌∷◌, lookup,
}
use pure_hypervisor_integrat.Prelude.Text.{fstring, lower, strip, sorted_set}
use pure_hypervisor_integrat.Prelude.Dict.{assign, get_or}
use pure_hypervisor_integrat.Array.Hosts.{Initiators, owned, shares, norm_wwn, find_owner}
use pure_hypervisor_integrat.Array.Io.{◌>>=◌}
use pure_hypervisor_integrat.Array.Mock.{Mock, empty_mock, no_volume, copy_volume, get_volume}
use pure_hypervisor_integrat.Array.MockHosts.{find_host_by_initiator, get_host}
use pure_hypervisor_integrat.Array.Volumes.{
  Op, create, copy, delete, rename, view, run_calls, replay, run_calls_refines, copy_volume-serial,
}
use pure_hypervisor_integrat.Array.Register.{HostSpec, groups_seen, register_host_group}
use pure_hypervisor_integrat.Array.Registration.{Conflicted, conflict_harmless}
use pure_hypervisor_integrat.Array.InMemory.{
  mock_client, contents, mock-Reads, Grouped, register_host_group-Grouped,
}
use pure_hypervisor_integrat.Array.Rest.{Array, response}
use pure_hypervisor_integrat.Array.VolumeCalls
use pure_hypervisor_integrat.Array.Sent.{Deletes, delete_volume-Deletes}
use pure_hypervisor_integrat.Array.VvolIds.{Quotes, Added, find_volume_by_vvol_id-Added}

abbrev serials : String → String
serials name = fstring ("s-" ∷ name ∷ [])

abbrev calls_of_a_day : List Op
calls_of_a_day =
    create "a" "1G" ∷ create "b" "2G" ∷ copy "a" "b" true ∷ delete "a" false ∷ rename "b" "c" ∷ []

run_calls_refines_example :
    view (run_calls serials calls_of_a_day empty_mock)
    ≡ replay serials calls_of_a_day (view empty_mock)
run_calls_refines_example = run_calls_refines serials calls_of_a_day empty_mock

abbrev one_volume : Mock
one_volume = record empty_mock {
  volumes =
      ("a", record { size = some "1G"; serial = some "s-a" })
      ∷ ("b", record { size = some "2G"; serial = some "s-b" })
      ∷ [];
}

copy_volume-serial_example :
    (get_volume "b" (copy_volume serials "a" "b" true one_volume)).0
      ≡ some (record {
        size = (get_or no_volume (lookup "a" one_volume.volumes)).size;
        serial = some "s-b";
      })
    × ((other : String)
        → ("b" == other) ≡ false
        → (get_volume other (copy_volume serials "a" "b" true one_volume)).0
          ≡ (get_volume other one_volume).0)
copy_volume-serial_example =
    copy_volume-serial serials "a" "b" "s-b" one_volume (some "2G") refl refl

abbrev with_iqn : String → Initiators
with_iqn iqn = record { iqns = iqn ∷ []; wwns = []; nqns = [] }

abbrev two_groups : Mock
two_groups = record empty_mock {
  hosts = ("h1", with_iqn "iqn.1") ∷ ("h2", with_iqn "iqn.2") ∷ [];
  host_groups = ("g1", "h1" ∷ []) ∷ ("g2", "h2" ∷ []) ∷ [];
}

abbrev pool : List HostSpec
pool =
    record { name = "n1"; initiators = with_iqn "iqn.1" }
    ∷ record { name = "n2"; initiators = with_iqn "IQN.2" }
    ∷ []

pool_in_conflict : Conflicted (register_host_group mock_client "pool" pool two_groups).0
unfolding register_host_group find_host_by_initiator find_owner shares owned get_host sorted_set
    lower strip norm_wwn ◌>>=◌ groups_seen assign
pool_in_conflict = λ q. cc

conflict_harmless_example :
    contents (register_host_group mock_client "pool" pool two_groups).1 ≡ contents two_groups
conflict_harmless_example =
    conflict_harmless mock_client contents mock-Reads "pool" pool two_groups pool_in_conflict

register_host_group-Grouped_example :
    Grouped empty_mock.hosts pool (register_host_group mock_client "pool" pool empty_mock)
register_host_group-Grouped_example = register_host_group-Grouped "pool" pool empty_mock

-- an array that takes every request
abbrev willing : Array
willing request past = response 200 "" []

delete_volume-Deletes_example :
    Deletes willing "v" true [] (VolumeCalls.delete_volume willing "v" true []).1
delete_volume-Deletes_example = delete_volume-Deletes willing "v" true []

find_volume_by_vvol_id-Added_example :
    Added Quotes []
      (VolumeCalls.find_volume_by_vvol_id willing "rfc4122.aabd56ec-c0d6-4af9-bd8e-70cab2058fa7"
        []).1
find_volume_by_vvol_id-Added_example =
    find_volume_by_vvol_id-Added willing "rfc4122.aabd56ec-c0d6-4af9-bd8e-70cab2058fa7" []
