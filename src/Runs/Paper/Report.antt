-- ===== src/Runs/Paper/Report.antt =====
-- `render_paper_skeleton_report` of reports/render.py.
use tradingchassis_ops_lab.Base.{ℕ, String, ◌<>◌}
use tradingchassis_ops_lab.Base.Json.{decimal}

abbrev closing : String
closing =
    "- control_signal: local file-based kill switch state\n"
    <> "- no order cancellation, no position flattening, no production safety guarantee\n\n"
    <> "## Skeleton Session Summary\n\n"
    <> "This run executes a bounded local paper lifecycle with deterministic behavior.\n"
    <> "No exchange or testnet integration is performed in this paper lifecycle skeleton.\n\n"
    <> "## Explicit Non-Features\n\n" <> "- no exchange/testnet connection\n"
    <> "- no API keys or secrets\n" <> "- no live market data\n" <> "- no orders\n"
    <> "- no fills\n" <> "- no strategy execution\n\n" <> "## Disclaimer\n\n"
    <> "This is not paper trading connectivity.\n" <> "This is only a lifecycle skeleton.\n"

unfoldable pub render_paper_skeleton_report :
    String → String → String → String → String → ℕ → String → String → String → String
unfolding decimal
render_paper_skeleton_report run_id mode engine status config_sha256 heartbeat_count connectivity
      kill_switch_state lifecycle_outcome =
    "# Paper Skeleton Report: "
    <> run_id
    <> "\n\n"
    <> "- mode: "
    <> mode
    <> "\n"
    <> "- engine: "
    <> engine
    <> "\n"
    <> "- status: "
    <> status
    <> "\n"
    <> "- config_sha256: "
    <> config_sha256
    <> "\n"
    <> "- heartbeat_count: "
    <> decimal heartbeat_count
    <> "\n"
    <> "- connectivity: "
    <> connectivity
    <> "\n\n"
    <> "## Safety status\n\n"
    <> "- kill_switch_state: "
    <> kill_switch_state
    <> "\n"
    <> "- lifecycle_outcome: "
    <> lifecycle_outcome
    <> "\n"
    <> closing
