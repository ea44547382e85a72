-- ===== src/Runs/Backtest/Payloads.antt =====
-- The values that runs/backtest.py writes.
use tradingchassis_ops_lab.Base.{String, true, false, ◌∷◌, []}
use tradingchassis_ops_lab.Base.Json.{Json, null, bool, int, pos, str, obj, Fields, end, dict, put}
use tradingchassis_ops_lab.Runs.Spec.{RunSpec}
use tradingchassis_ops_lab.Engine.Smoke.{SmokeResult}

-- `_write_smoke_metrics`
unfoldable pub smoke_metrics_fields : RunSpec → SmokeResult → Fields
smoke_metrics_fields spec r = dict (
    ("schema_version", str "v1")
    ∷ ("run_id", str spec.run_id)
    ∷ ("mode", str spec.mode)
    ∷ ("engine", str "nautilus")
    ∷ ("status", str "completed")
    ∷ ("is_placeholder", bool false)
    ∷ ("engine_executed", bool true)
    ∷ ("dataset", str spec.data_spec.dataset)
    ∷ ("scenario_name", str r.scenario_name)
    ∷ ("scenario_version", str r.scenario_version)
    ∷ ("strategy_registered", bool r.strategy_registered)
    ∷ ("input_candles_count", int (pos r.input_candles_count))
    ∷ ("bars_processed", int (pos r.bars_processed))
    ∷ ("engine_duration_ms", int (pos r.engine_duration_ms))
    ∷ ("bars_seen", int (pos r.bars_seen))
    ∷ ("orders_submitted", int (pos r.orders_submitted))
    ∷ ("fills_count", int (pos r.fills_count))
    ∷ ("deterministic_action_triggered", bool r.deterministic_action_triggered)
    ∷ ("metrics", obj end)
    ∷ [])

-- `metadata["engine_execution"]` while the engine runs, and after it failed.
unfoldable pub unregistered_execution : RunSpec → String → String → Json → Json → Fields
unregistered_execution spec status started_at completed_at error = dict (
    ("status", str status)
    ∷ ("engine", str "nautilus")
    ∷ ("scenario_name", str spec.strategy.name)
    ∷ ("scenario_version", str spec.strategy.version)
    ∷ ("strategy_registered", bool false)
    ∷ ("bars_seen", int (pos 0))
    ∷ ("orders_submitted", int (pos 0))
    ∷ ("fills_count", int (pos 0))
    ∷ ("deterministic_action_triggered", bool false)
    ∷ ("nautilus_version", null)
    ∷ ("started_at_utc", str started_at)
    ∷ ("completed_at_utc", completed_at)
    ∷ ("error", error)
    ∷ [])

unfoldable pub completed_execution : SmokeResult → String → String → Fields
completed_execution r started_at completed_at = dict (
    ("status", str "completed")
    ∷ ("engine", str "nautilus")
    ∷ ("scenario_name", str r.scenario_name)
    ∷ ("scenario_version", str r.scenario_version)
    ∷ ("strategy_registered", bool r.strategy_registered)
    ∷ ("bars_seen", int (pos r.bars_seen))
    ∷ ("orders_submitted", int (pos r.orders_submitted))
    ∷ ("fills_count", int (pos r.fills_count))
    ∷ ("deterministic_action_triggered", bool r.deterministic_action_triggered)
    ∷ ("nautilus_version", str r.nautilus_version)
    ∷ ("started_at_utc", str started_at)
    ∷ ("completed_at_utc", str completed_at)
    ∷ ("error", null)
    ∷ [])

abbrev pub engine_started_fields : Fields
engine_started_fields = dict (("note", str "nautilus engine smoke run started") ∷ [])

abbrev pub engine_failed_fields : String → Fields
engine_failed_fields error = dict (("error", str error) ∷ [])

abbrev pub engine_completed_fields : SmokeResult → Fields
engine_completed_fields r = dict (
    ("result", str "engine_smoke_completed")
    ∷ ("input_candles_count", int (pos r.input_candles_count))
    ∷ ("bars_processed", int (pos r.bars_processed))
    ∷ ("scenario_name", str r.scenario_name)
    ∷ ("scenario_version", str r.scenario_version)
    ∷ ("strategy_registered", bool r.strategy_registered)
    ∷ ("bars_seen", int (pos r.bars_seen))
    ∷ ("orders_submitted", int (pos r.orders_submitted))
    ∷ ("fills_count", int (pos r.fills_count))
    ∷ ("deterministic_action_triggered", bool r.deterministic_action_triggered)
    ∷ [])

-- The metadata before the engine runs.
unfoldable pub begun : String → Fields → Fields → Fields
begun started_at execution metadata = put "engine_execution" (obj execution) (
    put "is_placeholder" (bool false) (
      put "lifecycle" (str "backtest_nautilus_smoke")
        (put "started_at_utc" (str started_at) (put "status" (str "running") metadata))))

-- The metadata with a status, the time of the end and the execution record.
unfoldable pub finished : String → String → Fields → Fields → Fields
finished status at execution metadata =
    put "engine_execution" (obj execution)
      (put "completed_at_utc" (str at) (put "status" (str status) metadata))
