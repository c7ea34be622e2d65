-- ===== src/Api/Pairs.antt =====
-- Which hypervisors a VM can be migrated between: `_supports`, `_is_replication_connection`,
-- `_array_connection_status`, `migration_precheck` and `_validate_pair`. The capabilities of the
-- connector classes are a parameter, and so is what a hypervisor's connector finds of its array, which
-- does not change while a request is handled.
use pure_hypervisor_integrat.Prelude.{
  String, Bool, false, not, ◌&&◌, ◌==◌, Option, none, some, List, [], ◌∷◌, any, given, maybe,
  text_or, if◌then◌else◌,
}
use pure_hypervisor_integrat.Prelude.Text.{fstring, repr, lower, strip, includes}
use pure_hypervisor_integrat.Api.Http.{Response, accepted, refused, ◌>>=◌, insist}

-- a row of the hypervisors
pub record Hypervisor : Type 0 where
  pub id : String
  pub name : String
  pub connector_key : String
  pub array_id : Option String

-- an entry of `list_array_connections`
pub record Connection : Type 0 where
  pub name : Option String
  pub kind : Option String

-- what comes of building a hypervisor's connector and asking its array: the building raises, there is
-- no array, or there is one, whose name and connections are `none` where the call raises
pub data Site : Type 0 where
  unbuilt : Site
  arrayless : Site
  reached : Option String → Option (List Connection) → Site

-- `_is_replication_connection`
unfoldable pub is_replication_connection : Option String → Bool
is_replication_connection conn_type = includes (lower (strip (text_or conn_type ""))) "replication"

-- the test of a connection against the name of the destination's array
abbrev pub leads_to : String → Connection → Bool
leads_to dest_name c = text_or c.name "" == dest_name && is_replication_connection c.kind

-- `_array_connection_status`, for what is found of the two arrays
unfoldable pub connection_status : Site → Site → Bool × String
connection_status (reached n (some conns)) (reached (some dest_name) other) =
    (any (leads_to dest_name) conns, dest_name)
connection_status (reached n (some conns)) (reached none other) = (false, "")
connection_status (reached n (some conns)) unbuilt = (false, "")
connection_status (reached n (some conns)) arrayless = (false, "")
connection_status (reached n none) dest = (false, "")
connection_status unbuilt dest = (false, "")
connection_status arrayless dest = (false, "")

-- two hypervisors of one array
abbrev pub same_array : Hypervisor → Hypervisor → Bool
same_array g h = text_or g.array_id "" == text_or h.array_id ""

-- `session.get(Hypervisor, hv_id)`
unfoldable pub find_hv : String → List Hypervisor → Option Hypervisor
find_hv hv_id [] = none
find_hv hv_id (h ∷ rows) = let rest = find_hv hv_id rows in if h.id == hv_id then some h else rest

-- `_get_hv`
abbrev pub get_hv : String → List Hypervisor → Response Hypervisor
get_hv hv_id rows = maybe (find_hv hv_id rows) (refused 404 "Hypervisor not found") accepted

-- the answer of `migration_precheck`
pub record Precheck : Type 0 where
  pub cross_array : Bool
  pub connection_exists : Bool
  pub dest_array_name : String
  pub needs_authorization : Bool

-- `supports` has `_supports(key, Capability.MIGRATE)`
module _ (supports : String → Bool) (site : Hypervisor → Site) where
  abbrev pub array_connection_status : Hypervisor → Hypervisor → Bool × String
  array_connection_status source dest = connection_status (site source) (site dest)

  -- `source.array_id and dest.array_id and source.array_id != dest.array_id`
  abbrev pub is_cross : Hypervisor → Hypervisor → Bool
  is_cross source dest =
      given source.array_id && given dest.array_id && not (same_array source dest)

  -- `migration_precheck`, for two rows
  unfoldable pub precheck : Hypervisor → Hypervisor → Precheck
  precheck source dest =
      let cross = is_cross source dest in
      let status = if cross then array_connection_status source dest else (false, "") in
      record {
        cross_array = cross;
        connection_exists = status.0;
        dest_array_name = status.1;
        needs_authorization = cross && not status.0;
      }

  -- `_validate_pair`
  unfoldable pub validate_pair : Hypervisor → Hypervisor → Bool → Response (Unit {0})
  validate_pair source dest allow_array_connect = do
    _ ← insist (not (source.id == dest.id)) 400 "Source and destination must differ"
    _ ←
        insist (supports source.connector_key) 400
          (fstring (repr source.connector_key ∷ " cannot be a migration source" ∷ []))
    _ ←
        insist (supports dest.connector_key) 400
          (fstring (repr dest.connector_key ∷ " cannot be a migration destination" ∷ []))
    _ ←
        insist (given source.array_id && given dest.array_id) 400
          "Both source and destination must be associated with a FlashArray"
    let status = array_connection_status source dest
    if not (same_array source dest) && not allow_array_connect
        then insist (status.0) 409 (
            fstring (
              "Source and destination are on different FlashArrays. An array connection to "
              ∷ repr (text_or (some (status.1)) "the destination array")
              ∷ " is required; re-submit with authorization to configure it."
              ∷ []))
        else accepted tt
