-- ===== src/Evidence/Compared.antt =====
-- `_compare_field` and `_build_compared_fields` of evidence/compare.py.
use tradingchassis_ops_lab.Base.{
  String, Bool, Option, none, some, List, [], ◌∷◌, if◌then◌else◌, ◌==◌,
}
use tradingchassis_ops_lab.Base.Json.{Json, null, bool, str, obj, Fields, dict, get, opt_str}
use tradingchassis_ops_lab.Evidence.Load.{Python, texts_json}

-- `d.get(k)`, as a value
abbrev pub got : Fields → String → Json
got fs k = elim (get fs k) [ none ↦ null | some v ↦ v ]

-- The metadata and metrics of one run.
pub record Side : Type 0 where
  pub metadata : Fields
  pub metrics : Fields
  pub presence : List (String × Bool)
  pub readiness_state : Option String
  pub probe_state : Option String

abbrev pub present : List (String × Bool) → String → Json
present [] name = null
present (e ∷ es) name = if name == e.0 then bool e.1 else present es name

unfoldable pub compare_field : Python → String → Json → Json → String → String → Json
compare_field py area backtest_value paper_value comparable note = obj (
    dict (
      ("area", str area)
      ∷ ("backtest", backtest_value)
      ∷ ("paper", paper_value)
      ∷ ("comparable", str comparable)
      ∷ ("match", bool (py.equal backtest_value paper_value))
      ∷ ("note", str note)
      ∷ []))

-- The fields, without the first argument.
abbrev pub identity_fields :
    (String → Json → Json → String → String → Json) → Side → Side → List Json
identity_fields field b p =
    field "engine" (got b.metadata "engine") (got p.metadata "engine") "direct"
      "Both run modes share the same engine label."
    ∷ field "instrument" (got b.metadata "instrument") (got p.metadata "instrument") "direct"
        "Instrument label should align for operational context."
    ∷ field "venue" (got b.metadata "venue") (got p.metadata "venue") "contextual"
        "Venue labels can differ across modes and remain valid."
    ∷ field "strategy_scenario_identity"
        (obj (
          dict (
            ("scenario_name", got b.metrics "scenario_name")
            ∷ ("scenario_version", got b.metrics "scenario_version")
            ∷ [])))
        (got p.metadata "strategy") "contextual"
        "Backtest executes built-in scenario; paper records strategy metadata only."
    ∷ field "config_hash" (got b.metadata "config_sha256") (got p.metadata "config_sha256")
        "contextual" "Hash mismatch is expected when specs differ by mode."
    ∷ field "status" (got b.metadata "status") (got p.metadata "status") "contextual"
        "Paper may be completed or safety_blocked while still valid evidence."
    ∷ field "engine_executed" (got b.metrics "engine_executed") (got p.metrics "engine_executed")
        "mode_specific" "Backtest executes engine; paper skeleton intentionally does not."
    ∷ field "is_placeholder" (got b.metadata "is_placeholder") (got p.metadata "is_placeholder")
        "mode_specific" "Backtest is non-placeholder; paper is synthetic placeholder."
    ∷ []

abbrev pub artifact_fields :
    (String → Json → Json → String → String → Json)
    → Side
    → Side
    → List String
    → Option String
    → List Json
artifact_fields field b p shared_events paper_kill_switch_state =
    field "metrics_artifact_presence" (present b.presence "metrics.json")
      (present p.presence "metrics.json") "direct"
      "Both runs should provide metrics.json for comparison."
    ∷ field "report_presence" (present b.presence "report.md") (present p.presence "report.md")
        "direct" "Both runs should provide report.md for operator review."
    ∷ field "journal_shared_events" (texts_json shared_events) (texts_json shared_events) "direct"
        "Shared lifecycle markers should be visible in both journals."
    ∷ field "safety_state" null (opt_str paper_kill_switch_state) "gap"
        "Safety gate applies to paper lifecycle only."
    ∷ field "readiness_state" (opt_str b.readiness_state) (opt_str p.readiness_state)
        "future_candidate" "Readiness artifacts are optional and mode-dependent."
    ∷ field "probe_state" (opt_str b.probe_state) (opt_str p.probe_state) "future_candidate"
        "Probe artifacts are optional and local-only."
    ∷ field "backtest_bars_vs_paper_heartbeat"
        (obj (
          dict (
            ("bars_processed", got b.metrics "bars_processed")
            ∷ ("bars_seen", got b.metrics "bars_seen")
            ∷ [])))
        (obj (dict (("heartbeat_count", got p.metrics "heartbeat_count") ∷ []))) "mode_specific"
        "Bars and heartbeats represent different lifecycle signals."
    ∷ []
