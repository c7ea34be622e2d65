-- ===== src/Api/Destinations.antt =====
-- `migration_destinations`: every other hypervisor judged as a destination, with the reason. The names
-- of the arrays are kept in a dictionary, so that each is asked once.
use pure_hypervisor_integrat.Prelude.{
  String, Bool, true, false, not, ◌&&◌, ◌==◌, Option, none, some, List, [], ◌∷◌, any, given,
  text_or, lookup, if◌then◌else◌,
}
use pure_hypervisor_integrat.Prelude.Text.{fstring}
use pure_hypervisor_integrat.Prelude.Dict.{assign}
use pure_hypervisor_integrat.Api.Pairs.{
  Hypervisor, Connection, Site, unbuilt, arrayless, reached, leads_to, same_array,
}

-- an entry of the answer
pub record Candidate : Type 0 where
  pub id : String
  pub name : String
  pub connector_key : String
  pub array_id : Option String
  pub eligible : Bool
  pub reason : String
  pub cross_array : Bool
  pub connection_exists : Bool
  pub needs_authorization : Bool
  pub dest_array_name : String

-- the entry before it is judged
abbrev pub unjudged : Hypervisor → Candidate
unjudged hv = record {
  id = hv.id;
  name = hv.name;
  connector_key = hv.connector_key;
  array_id = hv.array_id;
  eligible = false;
  reason = "";
  cross_array = false;
  connection_exists = false;
  needs_authorization = false;
  dest_array_name = "";
}

-- `_dest_array_name`, where the dictionary has nothing
abbrev pub name_found : Site → String
name_found unbuilt = ""
name_found arrayless = ""
name_found (reached none conns) = ""
name_found (reached (some name) conns) = name

-- `_source_connections`
abbrev pub connections_found : Site → List Connection
connections_found unbuilt = []
connections_found arrayless = []
connections_found (reached n none) = []
connections_found (reached n (some conns)) = conns

-- the names of arrays that are known, by the arrays' ids
abbrev pub Names : Type 0
Names = List (String × String)

module _ (supports : String → Bool) (site : Hypervisor → Site) where
  -- `_dest_array_name`: the name, and the dictionary after it
  unfoldable pub dest_array_name : Hypervisor → Names → String × Names
  dest_array_name hv names =
      let key = text_or hv.array_id "" in
      let found = name_found (site hv) in
      elim (lookup key names) [ some name ↦ (name, names) | none ↦ (found, assign key found names) ]

  -- the entry of a destination on another array
  unfoldable pub over_replication : Hypervisor → Hypervisor → String → Candidate
  over_replication source hv dest_name =
      let connected =
        not (dest_name == "") && any (leads_to dest_name) (connections_found (site source)) in
      let shown = text_or (some dest_name) "the destination array" in
      record (unjudged hv) {
        cross_array = true;
        connection_exists = connected;
        dest_array_name = dest_name;
        needs_authorization = not connected;
        eligible = true;
        reason =
            if connected
            then fstring ("replication connection to " ∷ shown ∷ [])
            else fstring (
                "different FlashArrays — a replication connection to " ∷ shown
                ∷ " must be authorized" ∷ []);
      }

  -- an entry, and the dictionary after it
  unfoldable pub judged : Hypervisor → Hypervisor → Names → Candidate × Names
  judged source hv names =
      let found = dest_array_name hv names in
      if not (supports hv.connector_key)
      then (
        record (unjudged hv) {
          reason = fstring (hv.connector_key ∷ " cannot act as a migration destination" ∷ []);
        },
        names,
      )
      else if not (supports source.connector_key)
      then (
        record (unjudged hv) {
          reason = fstring (source.connector_key ∷ " cannot act as a migration source" ∷ []);
        },
        names,
      )
      else if not (given source.array_id && given hv.array_id)
      then (
        record (unjudged hv) {
          reason = fstring (
              "the "
              ∷ (if given source.array_id then "destination" else "source")
              ∷ " has no FlashArray associated"
              ∷ []);
        },
        names,
      )
      else if same_array source hv
      then (record (unjudged hv) { eligible = true; reason = "same FlashArray" }, names)
      else (over_replication source hv (found.0), found.1)

  -- `migration_destinations` over the rows, with the names that are known
  unfoldable pub destinations : Hypervisor → List Hypervisor → Names → List Candidate
  destinations source [] names = []
  destinations source (hv ∷ rows) names =
      let entry = judged source hv names in
      let passed_over = destinations source rows names in
      let rest = destinations source rows (entry.1) in
      if hv.id == source.id then passed_over else entry.0 ∷ rest

  -- `migration_destinations`
  unfoldable pub migration_destinations : Hypervisor → List Hypervisor → List Candidate
  migration_destinations source rows = destinations source rows []
