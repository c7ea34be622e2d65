-- ===== src/Jobs/Monitor.antt =====
-- backend/phif/jobs/monitor.py: `run_monitor_cycle`. What a hypervisor's connector answers to
-- `assess_cluster` is a parameter, `none` where it raises, and so is whether the connector's class can
-- reconcile a cluster. The time of the assessment is one of its fields.
use pure_hypervisor_integrat.Prelude.{
  ℕ, String, Bool, not, ◌&&◌, ◌||◌, ◌==◌, Option, some, List, [], ◌∷◌, maybe, if◌then◌else◌, ◌+◌,
}
use pure_hypervisor_integrat.Prelude.Json.{
  Fields, Value, json_null, json_dict, no_fields, get, put, truth, flagged, same_value,
}

-- the columns of a hypervisor that the monitor reads or writes
pub record Watched : Type 0 where
  pub id : String
  pub connector_key : String
  pub status : String
  pub state : Fields

-- `d.get(key)`
abbrev pub value_of : String → Fields → Value
value_of key d = maybe (get key d) json_null (λ v. v)

-- `(state or {}).get("cluster_assessment") or {}`; the monitor only writes dictionaries there
abbrev pub as_dict : Option Value → Fields
as_dict (some (json_dict d)) = d
as_dict _ = no_fields

unfoldable pub previous : Watched → Fields
previous hv = as_dict (get "cluster_assessment" hv.state)

-- `has_drift`
abbrev pub has_drift : Fields → Bool
has_drift assessment =
    truth (value_of "new_hosts" assessment) || truth (value_of "departed_hosts" assessment)

-- `changed`
unfoldable pub changed : Fields → Fields → Bool
changed prev assessment =
    not (same_value (value_of "new_hosts" prev) (value_of "new_hosts" assessment))
    || not (same_value (value_of "departed_hosts" prev) (value_of "departed_hosts" assessment))

-- an assessment: the row after it
unfoldable pub recorded : Watched → Fields → Watched
recorded hv assessment =
    if changed (previous hv) assessment
    then record hv { state = put "cluster_assessment" (json_dict assessment) hv.state }
    else hv

-- the tests before an assessment
unfoldable pub is_eligible : (String → Bool) → Watched → Bool
is_eligible can_reconcile hv =
    hv.status == "deployed"
    && (not (flagged "monitoring_disabled" hv.state) && can_reconcile hv.connector_key)

module _ (can_reconcile : String → Bool) (assess : Watched → Option Fields) where
  -- a turn of the loop: the row after it, and what is added to the count
  unfoldable pub watch : Watched → Watched × ℕ
  watch hv =
      let seen = assess hv in
      if is_eligible can_reconcile hv
      then maybe seen (hv, 0) (λ a. (recorded hv a, if has_drift a then 1 else 0))
      else (hv, 0)

  -- `run_monitor_cycle`: the rows after it, and what it returns
  unfoldable pub run_monitor_cycle : List Watched → List Watched × ℕ
  run_monitor_cycle [] = ([], 0)
  run_monitor_cycle (hv ∷ rows) =
      let (hv', flag) = watch hv in
      let (rows', flagged_rows) = run_monitor_cycle rows in (hv' ∷ rows', flag + flagged_rows)
