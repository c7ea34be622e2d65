-- ===== src/Jobs/Settings.antt =====
-- backend/phif/db/settings_store.py: the settings of the monitor, in the table of settings.
use pure_hypervisor_integrat.Prelude.{
  ℕ, max, String, ◌≡◌, refl, ap, ◌∙◌, Bool, false, Option, none, some, List, lookup, maybe, eq_iff,
}
use pure_hypervisor_integrat.Prelude.Dict.{assign, lookup-assign}
use pure_hypervisor_integrat.Prelude.Json.{
  Fields, Value, json_bool, json_number, no_fields, more_fields, get, put, merged, get-put,
  get-merged,
}
use pure_hypervisor_integrat.Migrate.Dicts.{read_int, as_int}

-- the rows of the table: the values by their keys
abbrev pub Settings : Type 0
Settings = List (String × Option Fields)

-- `MONITORING_KEY`
abbrev pub monitoring_key : String
monitoring_key = "monitoring"

-- `MONITORING_DEFAULTS`
abbrev pub monitoring_defaults : Fields
monitoring_defaults =
    more_fields "enabled" (json_bool false)
      (more_fields "interval_seconds" (json_number 300) no_fields)

-- the value of a row, if it has one
abbrev pub value_or : Fields → Option (Option Fields) → Fields
value_or default none = default
value_or default (some none) = default
value_or default (some (some value)) = value

-- `get_setting`
unfoldable pub get_setting : String → Fields → Settings → Fields
get_setting key default settings = value_or default (lookup key settings)

-- `set_setting`: the table after it
abbrev pub set_setting : String → Fields → Settings → Settings
set_setting key value = assign key (some value)

-- `get_monitoring`
unfoldable pub get_monitoring : Settings → Fields
unfolding get_setting
get_monitoring settings = merged monitoring_defaults (get_setting monitoring_key no_fields settings)

-- the arguments of `set_monitoring`
pub record MonitoringPatch : Type 0 where
  pub enabled : Option Bool
  pub interval_seconds : Option ℕ

-- what `set_monitoring` makes of the present value
abbrev pub patched : MonitoringPatch → Fields → Fields
patched patch current =
    let switched = maybe patch.enabled current (λ b. put "enabled" (json_bool b) current) in
    maybe patch.interval_seconds switched
      (λ n. put "interval_seconds" (json_number (max 30 n)) switched)

-- `set_monitoring`: the table after it
unfoldable pub set_monitoring : MonitoringPatch → Settings → Settings
set_monitoring patch settings =
    set_setting monitoring_key (patched patch (get_monitoring settings)) settings

-- the interval of `monitor_loop`
abbrev pub loop_interval : Settings → Option ℕ
loop_interval settings = read_int 300 (get "interval_seconds" (get_monitoring settings))

-- whether `monitor_loop` runs a pass
abbrev pub switched_on : Settings → Option Value
switched_on settings = get "enabled" (get_monitoring settings)

get_setting-set_setting :
    (key : String) (default value : Fields) (settings : Settings)
    → get_setting key default (set_setting key value settings) ≡ value
unfolding get_setting
get_setting-set_setting key default value settings =
    let found : lookup key (set_setting key value settings) ≡ some (some value) =
      lookup-assign key key (some value) settings ∙ rw ((eq_iff key key).1 refl) refl in
    ap (value_or default) found

-- what the loop finds of a key that the settings have after a change
found_again :
    (patch : MonitoringPatch) (settings : Settings) (key : String)
    → get key (get_monitoring (set_monitoring patch settings))
      ≡ (elim (get key (patched patch (get_monitoring settings))) [
        | none ↦ get key monitoring_defaults
        | some v ↦ some v
      ])
unfolding get_monitoring set_monitoring
found_again patch settings key =
    rw
      (get_setting-set_setting monitoring_key no_fields (patched patch (get_monitoring settings))
        settings)
      (get-merged key monitoring_defaults (patched patch (get_monitoring settings)))

read_again :
    (o : Option Value)
    → read_int 300 (elim o [ none ↦ some (json_number 300) | some v ↦ some v ]) ≡ read_int 300 o
unfolding as_int
read_again none = refl
read_again (some v) = refl

patched-interval :
    (enabled : Option Bool) (interval : Option ℕ) (current : Fields)
    → get "interval_seconds"
        (patched (record { enabled = enabled; interval_seconds = interval }) current)
      ≡ maybe interval (get "interval_seconds" current) (λ n. some (json_number (max 30 n)))
patched-interval none none current = refl
patched-interval none (some n) current =
    get-put "interval_seconds" "interval_seconds" (json_number (max 30 n)) current
patched-interval (some b) none current = get-put "interval_seconds" "enabled" (json_bool b) current
patched-interval (some b) (some n) current =
    get-put "interval_seconds" "interval_seconds" (json_number (max 30 n))
      (put "enabled" (json_bool b) current)

-- after a change of the settings that gives an interval, the monitor's loop waits at least 30 seconds and
-- at least that interval between two passes, and just the interval if it is not below 30; a change that
-- gives none leaves the wait as it is
pub set_monitoring-loop_interval :
    (patch : MonitoringPatch) (settings : Settings)
    → loop_interval (set_monitoring patch settings)
      ≡ maybe patch.interval_seconds (loop_interval settings) (λ n. some (max 30 n))
unfolding as_int get
set_monitoring-loop_interval patch settings =
    ap (read_int 300) (found_again patch settings "interval_seconds")
    ∙ ap (λ o. read_int 300 (elim o [ none ↦ some (json_number 300) | some v ↦ some v ]))
        (patched-interval patch.enabled patch.interval_seconds (get_monitoring settings))
    ∙ by_patch patch.interval_seconds
  where
    by_patch :
        (interval : Option ℕ)
        → read_int 300
            (elim (maybe interval
              (get "interval_seconds" (get_monitoring settings))
              (λ n. some (json_number (max 30 n)))) [
                | none ↦ some (json_number 300)
                | some v ↦ some v
              ])
          ≡ maybe interval (loop_interval settings) (λ n. some (max 30 n))
    by_patch none = read_again (get "interval_seconds" (get_monitoring settings))
    by_patch (some n) = refl
