-- ===== src/Evidence/Payloads.antt =====
-- The two payloads that `compare_backtest_paper` of evidence/compare.py can return.
use tradingchassis_ops_lab.Base.{
  String, ◌<>◌, Bool, true, false, not, ◌&&◌, Option, none, some, List, [], ◌∷◌, ◌++◌, contains,
  is_empty, if◌then◌else◌, ◌==◌,
}
use tradingchassis_ops_lab.Base.Sorting.{sorted}
use tradingchassis_ops_lab.Base.Json.{
  Json, bool, int, pos, str, arr, nil, obj, Fields, dict, get, items_of, opt_str, is_text,
}
use tradingchassis_ops_lab.World.Effects.{FilePath, Action, pure, utc_now_iso8601}
use tradingchassis_ops_lab.KillSwitch.Operations.{path_text}
use tradingchassis_ops_lab.Connectivity.Readiness.{select}
use tradingchassis_ops_lab.Evidence.Load.{
  Python, core_artifact_names, paper_safety_states, object_at, presence_json, journal_names,
  journal_summary, texts_json,
}
use tradingchassis_ops_lab.Evidence.Compared.{
  got, Side, compare_field, identity_fields, artifact_fields,
}

abbrev pub known_gaps : List String
known_gaps =
    "backtest_no_safety_gate" ∷ "config_hash_mismatch_expected" ∷ "external_state_not_available"
    ∷ "fill_quality_not_available_no_fills" ∷ "orderbook_not_available_candle_only"
    ∷ "paper_no_engine_execution" ∷ "paper_no_market_data" ∷ "pnl_not_available"
    ∷ "readiness_probe_optional" ∷ "reconciliation_not_cross_run" ∷ "returns_sharpe_not_available"
    ∷ "slippage_not_available_no_orders" ∷ "strategy_plugin_not_available"
    ∷ "venue_label_mismatch_allowed" ∷ []

abbrev pub notes : List String
notes =
    "Operational evidence only; not strategy performance."
    ∷ "Paper mode is a bounded synthetic lifecycle skeleton." ∷ []

abbrev pub non_goals : List String
non_goals =
    "alpha" ∷ "live_paper_trading" ∷ "order_execution" ∷ "pnl" ∷ "returns" ∷ "sharpe"
    ∷ "strategy_optimization" ∷ []

-- `path.name`
abbrev pub name_of : FilePath → String
name_of [] = ""
name_of (s ∷ p) = s

abbrev pub is_there : List (String × Bool) → String → Bool
is_there [] name = false
is_there (e ∷ es) name = if name == e.0 then e.1 else is_there es name

abbrev pub missing_names : List (String × Bool) → List String
missing_names presence = select (λ name. not (is_there presence name)) core_artifact_names

abbrev pub joined : List String → String
joined [] = ""
joined (s ∷ []) = s
joined (s ∷ t ∷ ts) = s <> ", " <> joined (t ∷ ts)

abbrev pub reason_of : String → FilePath → List String → List String
reason_of side run_dir [] = []
reason_of side run_dir (n ∷ ns) =
    (side
      <> " missing required artifacts at "
      <> path_text run_dir
      <> ": "
      <> joined (sorted (n ∷ ns)))
    ∷ []

unfoldable pub build_missing_reason : String → FilePath → List (String × Bool) → List String
unfolding path_text sorted
build_missing_reason side run_dir presence = reason_of side run_dir (missing_names presence)

-- `created_at_utc or _utc_now_iso8601()`
unfoldable pub created_at : Option String → Action String
created_at none = utc_now_iso8601
created_at (some ts) = if is_empty ts then utc_now_iso8601 else pure ts

abbrev pub no_events : Json
no_events = obj (dict (("event_total", int (pos 0)) ∷ ("events", arr nil) ∷ []))

abbrev pub unknown_status : Json
unknown_status = obj (dict (("status", str "unknown") ∷ []))

abbrev pub both : Json → Json → Json
both b p = obj (dict (("backtest", b) ∷ ("paper", p) ∷ []))

abbrev pub safety_summary : Option String → Option String → Bool → Json
safety_summary state outcome evaluated = obj (
    dict (
      ("paper_kill_switch_state", opt_str state)
      ∷ ("paper_lifecycle_outcome", opt_str outcome)
      ∷ ("backtest_safety_evaluated", bool evaluated)
      ∷ []))

-- The states of one run that its optional files tell.
pub record Connected : Type 0 where
  pub readiness : Option String
  pub probe : Option String
  pub reconciliation : Option String

abbrev pub unconnected : Connected
unconnected = record { readiness = none; probe = none; reconciliation = none }

abbrev pub connectivity_summary : Connected → Connected → Json
connectivity_summary b p = obj (
    dict (
      ("backtest_readiness", opt_str b.readiness)
      ∷ ("paper_readiness", opt_str p.readiness)
      ∷ ("backtest_probe", opt_str b.probe)
      ∷ ("paper_probe", opt_str p.probe)
      ∷ ("backtest_reconciliation", opt_str b.reconciliation)
      ∷ ("paper_reconciliation", opt_str p.reconciliation)
      ∷ []))

unfoldable pub missing_evidence :
    FilePath
    → FilePath
    → List (String × Bool)
    → List (String × Bool)
    → List String
    → String
    → Fields
unfolding sorted
missing_evidence backtest_dir paper_dir b p reasons ts = dict (
    ("schema_version", str "v1")
    ∷ ("created_at_utc", str ts)
    ∷ ("backtest_run_id", str (name_of backtest_dir))
    ∷ ("paper_run_id", str (name_of paper_dir))
    ∷ ("comparison_status", str "missing_artifacts")
    ∷ ("compared_fields", arr nil)
    ∷ ("mode_summary", both unknown_status unknown_status)
    ∷ ("artifact_presence", both (presence_json b) (presence_json p))
    ∷ (
      "journal_summary",
      obj (dict (("backtest", no_events) ∷ ("paper", no_events) ∷ ("shared_events", arr nil) ∷ [])),
    )
    ∷ ("safety_summary", safety_summary none none false)
    ∷ ("connectivity_summary", connectivity_summary unconnected unconnected)
    ∷ ("known_gaps", texts_json known_gaps)
    ∷ ("notes", texts_json (notes ++ sorted reasons))
    ∷ ("non_goals", texts_json non_goals)
    ∷ [])

abbrev pub comparison_status : Fields → Fields → String
comparison_status backtest_metadata paper_metadata =
    if is_text (got backtest_metadata "mode") "backtest"
      && is_text (got paper_metadata "mode") "paper"
    then "differences_expected"
    else "incompatible_runs"

abbrev pub run_id_or : Python → Option Json → String → String
run_id_or py none name = name
run_id_or py (some (str s)) name = s
run_id_or py (some v) name = py.str_of v

abbrev pub backtest_mode : Side → Json
backtest_mode b = obj (
    dict (
      ("lifecycle", got b.metadata "lifecycle")
      ∷ ("is_placeholder", got b.metadata "is_placeholder")
      ∷ ("status", got b.metadata "status")
      ∷ ("engine_executed", got b.metrics "engine_executed")
      ∷ ("scenario_name", got b.metrics "scenario_name")
      ∷ ("scenario_version", got b.metrics "scenario_version")
      ∷ ("bars_seen", got b.metrics "bars_seen")
      ∷ ("orders_submitted", got b.metrics "orders_submitted")
      ∷ ("fills_count", got b.metrics "fills_count")
      ∷ ("deterministic_action_triggered", got b.metrics "deterministic_action_triggered")
      ∷ []))

abbrev pub paper_mode : Side → Option String → Json
paper_mode p outcome = obj (
    dict (
      ("lifecycle", got p.metadata "lifecycle")
      ∷ ("is_placeholder", got p.metadata "is_placeholder")
      ∷ ("status", got p.metadata "status")
      ∷ ("engine_executed", got p.metrics "engine_executed")
      ∷ ("paper_lifecycle", got p.metrics "paper_lifecycle")
      ∷ ("heartbeat_count", got p.metrics "heartbeat_count")
      ∷ ("connectivity", got p.metrics "connectivity")
      ∷ ("safety_lifecycle_outcome", opt_str outcome)
      ∷ []))

abbrev pub is_object : Option Fields → Bool
is_object none = false
is_object (some _) = true

-- What was read of one run.
pub record Read : Type 0 where
  pub side : Side
  pub events : List Fields
  pub connected : Connected

unfoldable pub full_evidence : Python → FilePath → FilePath → Read → Read → String → Fields
unfolding compare_field paper_safety_states journal_summary journal_names sorted
full_evidence py backtest_dir paper_dir b p ts =
    let (state, outcome) = paper_safety_states p.side.metadata in
    let shared = sorted (select (contains (journal_names p.events)) (journal_names b.events)) in
    dict (
      ("schema_version", str "v1")
      ∷ ("created_at_utc", str ts)
      ∷ (
        "backtest_run_id",
        str (run_id_or py (get b.side.metadata "run_id") (name_of backtest_dir)),
      )
      ∷ ("paper_run_id", str (run_id_or py (get p.side.metadata "run_id") (name_of paper_dir)))
      ∷ ("comparison_status", str (comparison_status b.side.metadata p.side.metadata))
      ∷ (
        "compared_fields",
        arr (
            items_of (
              identity_fields (compare_field py) b.side p.side
              ++ artifact_fields (compare_field py) b.side p.side shared state)),
      )
      ∷ ("mode_summary", both (backtest_mode b.side) (paper_mode p.side outcome))
      ∷ ("artifact_presence", both (presence_json b.side.presence) (presence_json p.side.presence))
      ∷ (
        "journal_summary",
        obj (
            dict (
              ("backtest", journal_summary b.events)
              ∷ ("paper", journal_summary p.events)
              ∷ ("shared_events", texts_json shared)
              ∷ [])),
      )
      ∷ (
        "safety_summary",
        safety_summary state outcome (is_object (object_at b.side.metadata "safety")),
      )
      ∷ ("connectivity_summary", connectivity_summary b.connected p.connected)
      ∷ ("known_gaps", texts_json known_gaps)
      ∷ ("notes", texts_json notes)
      ∷ ("non_goals", texts_json non_goals)
      ∷ [])
