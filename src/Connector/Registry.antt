-- ===== src/Connector/Registry.antt =====
-- backend/phif/connectors/registry.py: the connector classes by their keys; and the routing of actions
-- in backend/phif/connectors/base.py. The classes that Python finds, in some order, are a parameter.
use pure_hypervisor_integrat.Prelude.{
  String, Bool, false, not, Option, none, some, List, [], ◌∷◌, ◌++◌, map, given, text_or, lookup,
  contains, if◌then◌else◌,
}
use pure_hypervisor_integrat.Prelude.Text.{fstring, repr}

-- a subclass of HypervisorConnector
pub record ConnectorClass : Type 0 where
  pub class_name : String
  pub is_abstract : Bool
  pub key : Option String
  pub capabilities : List String

-- the loop of `discover`, with the registry so far; a key that is there keeps its class
unfoldable pub discover_onto :
    List (String × ConnectorClass) → List ConnectorClass → List (String × ConnectorClass)
discover_onto registry [] = registry
discover_onto registry (cls ∷ classes) =
    let key = text_or cls.key "" in
    let skipped = discover_onto registry classes in
    let added = discover_onto (registry ++ ((key, cls) ∷ [])) classes in
    if cls.is_abstract
    then skipped
    else if not (given cls.key)
    then skipped
    else if contains key (map (λ r. r.0) registry)
    then skipped
    else added

-- `discover`
unfoldable pub discover : List ConnectorClass → List (String × ConnectorClass)
unfolding discover_onto
discover = discover_onto []

-- `get_connector_class`
abbrev pub get_connector_class : List ConnectorClass → String → Option ConnectorClass
get_connector_class classes key = lookup key (discover classes)

-- `_supports` of backend/phif/api/migrations.py
unfoldable pub class_supports : List ConnectorClass → String → String → Bool
class_supports classes key capability = elim (get_connector_class classes key) [
  | none ↦ false
  | some cls ↦ contains capability cls.capabilities
]

-- `_DEFAULT_DISPATCH`
abbrev pub default_dispatch : List (String × String)
default_dispatch =
    ("deploy", "deploy_integration")
    ∷ ("configure", "configure")
    ∷ ("provision", "provision")
    ∷ ("snapshot", "snapshot")
    ∷ ("clone", "clone")
    ∷ ("resize", "resize")
    ∷ ("delete", "delete")
    ∷ ("register_hosts", "register_hosts")
    ∷ ("setup_connectivity", "setup_connectivity")
    ∷ ("set_qos", "set_qos")
    ∷ ("configure_replication", "configure_replication")
    ∷ ("recover", "recover")
    ∷ ("upgrade", "upgrade")
    ∷ ("rotate_credentials", "rotate_credentials")
    ∷ ("health_check", "health_check")
    ∷ ("teardown", "teardown")
    ∷ ("assess_cluster", "assess_cluster")
    ∷ ("reconcile_cluster", "reconcile_cluster")
    ∷ []

-- where an action goes: to a method, or to a failure with a message
pub data Routed : Type 0 where
  to_method : String → Routed
  unknown_action : String → Routed

-- `dispatch`, for a connector of a key
unfoldable pub dispatch : String → String → Routed
dispatch key action_id = elim (lookup action_id default_dispatch) [
  | some method ↦ to_method method
  | none ↦
      unknown_action
        (fstring ("Unknown action " ∷ repr action_id ∷ " for connector " ∷ repr key ∷ []))
]
