-- ===== src/Connector/Trial.antt =====
-- An array whose group has a departed host, and the theorem at it.
use pure_hypervisor_integrat.Prelude.{String, some, none, [], ◌∷◌}
use pure_hypervisor_integrat.Array.Rest.{Item, Array, response}

-- a member of a group, as the array lists it
abbrev listed : String → Item
listed host = record {
  name = none;
  model = none;
  version = none;
  id = none;
  token = none;
  initiators = record { iqns = []; wwns = []; nqns = [] };
  host_group = none;
  member = some host;
  enabled = none;
  services = [];
  address = none;
  port_iqn = none;
  port_nqn = none;
  port_wwn = none;
  directory = none;
  export_name = none;
  serial = none;
  provisioned = none;
  destroyed = none;
  key = none;
  value = none;
  resource = none;
  host = none;
  remote = none;
  management_address = none;
  status = none;
  kind = none;
  connection_key = none;
}

-- every request succeeds, and a listing has two hosts
abbrev full_array : Array
full_array request past = response 200 "" (listed "node1" ∷ listed "node2" ∷ [])
