-- ===== src/Runs/Paper/Payloads.antt =====
-- The values that runs/paper.py writes.
use tradingchassis_ops_lab.Base.{ℕ, String, true, false, some, ◌∷◌, [], if◌then◌else◌, ◌==◌}
use tradingchassis_ops_lab.Base.Json.{Json, bool, int, pos, str, obj, Fields, end, dict, get, put}
use tradingchassis_ops_lab.Runs.Spec.{RunSpec}

abbrev pub heartbeat_count : ℕ
heartbeat_count = 3

abbrev pub synthetic_duration_seconds : ℕ
synthetic_duration_seconds = 3

-- `safety_snapshot["kill_switch"]["state"]`
abbrev text_at : Fields → String → String
text_at fs k = elim (get fs k) [ some (str s) ↦ s | _ ↦ "" ]

unfoldable pub kill_switch_state : Fields → String
kill_switch_state snapshot = elim (get snapshot "kill_switch") [
  | some (obj fs) ↦ text_at fs "state"
  | _ ↦ ""
]

abbrev pub lifecycle_outcome : String → String
lifecycle_outcome state = if state == "active" then "blocked_kill_switch" else "checked_continue"

-- `_write_placeholder_metrics` and `_write_blocked_metrics`, which differ in four values.
abbrev pub metrics_fields : RunSpec → String → String → ℕ → ℕ → Fields
metrics_fields spec status lifecycle heartbeats duration = dict (
    ("schema_version", str "v1")
    ∷ ("run_id", str spec.run_id)
    ∷ ("mode", str spec.mode)
    ∷ ("engine", str "nautilus")
    ∷ ("status", str status)
    ∷ ("is_placeholder", bool true)
    ∷ ("engine_executed", bool false)
    ∷ ("connectivity", str "none")
    ∷ ("paper_lifecycle", str lifecycle)
    ∷ ("heartbeat_count", int (pos heartbeats))
    ∷ ("synthetic_duration_seconds", int (pos duration))
    ∷ ("metrics", obj end)
    ∷ [])

-- The value of `metadata["paper_execution"]`.
abbrev pub paper_execution : String → String → String → Json → Json → Fields
paper_execution status session_type started_at completed_at error = dict (
    ("status", str status)
    ∷ ("engine", str "nautilus")
    ∷ ("connectivity", str "none")
    ∷ ("session_type", str session_type)
    ∷ ("started_at_utc", str started_at)
    ∷ ("completed_at_utc", completed_at)
    ∷ ("error", error)
    ∷ [])

-- The metadata with a status, the time of the end and the execution record.
abbrev pub ended : String → String → Fields → Fields → Fields
ended status at execution metadata =
    put "paper_execution" (obj execution)
      (put "completed_at_utc" (str at) (put "status" (str status) metadata))

abbrev pub started : Fields → String → String → Fields → Fields
started snapshot outcome at metadata =
    put "safety" (obj (put "lifecycle_outcome" (str outcome) snapshot)) (
      put "is_placeholder" (bool true) (
        put "lifecycle" (str "paper_skeleton")
          (put "started_at_utc" (str at) (put "status" (str "running") metadata))))

-- The extra fields of the events, in the order in which they can be logged.
abbrev pub checked_fields : String → Fields
checked_fields state = dict (
    ("kill_switch_state", str state)
    ∷ ("lifecycle_outcome", str (lifecycle_outcome state))
    ∷ ("control_signal", str "local_file_based")
    ∷ [])

abbrev pub blocked_fields : Fields
blocked_fields = dict (
    ("result", str "blocked_kill_switch")
    ∷ ("kill_switch_state", str "active")
    ∷ ("control_signal", str "local_file_based")
    ∷ [])

abbrev pub started_fields : Fields
started_fields =
    dict (("note", str "paper skeleton lifecycle started; no exchange/testnet connectivity") ∷ [])

abbrev pub heartbeat_fields : ℕ → Fields
heartbeat_fields index = dict (
    ("heartbeat_index", int (pos index))
    ∷ ("heartbeat_total", int (pos heartbeat_count))
    ∷ ("synthetic", bool true)
    ∷ [])

abbrev pub failed_fields : String → Fields
failed_fields error = dict (("error", str error) ∷ [])

abbrev pub completed_fields : Fields
completed_fields = dict (
    ("result", str "paper_skeleton_completed")
    ∷ ("heartbeat_count", int (pos heartbeat_count))
    ∷ [])
