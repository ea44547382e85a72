-- ===== src/Runs/Backtest/Report.antt =====
-- The backtest reports of reports/render.py.
use tradingchassis_ops_lab.Base.{String, ◌<>◌}
use tradingchassis_ops_lab.Base.Json.{decimal, bool_text}
use tradingchassis_ops_lab.Engine.Smoke.{SmokeResult}

unfoldable pub render_backtest_skeleton_report : String → String → String → String → String → String
render_backtest_skeleton_report run_id mode engine status config_sha256 =
    "# Backtest Skeleton Report: " <> run_id <> "\n\n- mode: " <> mode <> "\n- engine: " <> engine
    <> "\n- status: " <> status <> "\n- config_sha256: " <> config_sha256
    <> "\n\n## Artifacts\n\n- run_spec.yaml\n- metadata.json\n- journal.jsonl\n- metrics.json\n"
    <> "- report.md\n\n## Disclaimer\n\n"
    <> "This report comes from the backtest lifecycle skeleton.\n"
    <> "No NautilusTrader backtest was executed.\n"
    <> "No orders, fills, strategy PnL, or trading performance metrics were produced.\n"

unfoldable pub render_backtest_nautilus_smoke_report :
    String → String → String → SmokeResult → String
unfolding decimal
render_backtest_nautilus_smoke_report run_id dataset status r =
    "# Nautilus Smoke Backtest Report: "
    <> run_id
    <> "\n\n- status: "
    <> status
    <> "\n- engine: nautilus\n- dataset: "
    <> dataset
    <> "\n- scenario_name: "
    <> r.scenario_name
    <> "\n- scenario_version: "
    <> r.scenario_version
    <> "\n- strategy_registered: "
    <> bool_text r.strategy_registered
    <> "\n- input_candles_count: "
    <> decimal r.input_candles_count
    <> "\n- bars_processed: "
    <> decimal r.bars_processed
    <> "\n- engine_duration_ms: "
    <> decimal r.engine_duration_ms
    <> "\n\n## Built-in Scenario Execution\n\n- bars_seen: "
    <> decimal r.bars_seen
    <> "\n- orders_submitted: "
    <> decimal r.orders_submitted
    <> "\n- fills_count: "
    <> decimal r.fills_count
    <> "\n- deterministic_action_triggered: "
    <> bool_text r.deterministic_action_triggered
    <> "\n\n## Smoke Backtest Summary\n\n"
    <> "This run executed a minimal NautilusTrader engine smoke backtest.\n"
    <> "The fixture dataset candles were loaded from prepared local data and converted to "
    <> "Nautilus bars before engine execution.\nThe built-in `"
    <> r.scenario_name
    <> "` scenario strategy was registered for deterministic operational validation.\n"
    <> "The engine completed successfully for smoke validation.\n\n## Disclaimer\n\n"
    <> "This is not a validated strategy performance report.\n"
    <> "No profitability claims are made.\n"
    <> "No PnL metrics are produced by this artifact contract.\n"
