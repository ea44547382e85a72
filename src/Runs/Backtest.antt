-- ===== src/Runs/Backtest.antt =====
-- The backtest lifecycle: runs/backtest.py. `run_backtest_lifecycle` stands in parts, in the order
-- of the code.
pub mod Payloads
mod Report
unfoldable pub use Payloads.*
unfoldable pub use Report.*
use tradingchassis_ops_lab.Base.{String, none, [], ◌∷◌, if◌then◌else◌, ◌==◌}
use tradingchassis_ops_lab.Base.Json.{Json, null, str, obj, Fields, end}
use tradingchassis_ops_lab.World.Content.{document, text}
use tradingchassis_ops_lab.World.Effects.{
  FilePath, Action, pure, raise, ◌>>=◌, ◌>>◌, handle, write_text, message_of, utc_now_iso8601,
  invalid_mode, Exception,
}
use tradingchassis_ops_lab.Runs.Spec.{RunSpec}
use tradingchassis_ops_lab.Runs.Artifacts.{
  Libraries, load_run_spec, compute_config_sha256, default_artifacts_root, initialize_run_artifacts,
  build_initial_metadata, write_metadata,
}
use tradingchassis_ops_lab.Runs.Lifecycle.{
  Session, metadata_path, metrics_path, report_path, log_event, session_of,
}
use tradingchassis_ops_lab.Engine.Smoke.{
  Nautilus, SmokeResult, default_data_root, run_nautilus_backtest_smoke,
}

-- What the rest of the lifecycle uses of the start.
pub record Begun : Type 0 where
  pub session : Session
  pub metadata : Fields
  pub engine_started_at : String

-- From the artifacts directory to the event `backtest_started`.
unfoldable pub start_backtest : Libraries → FilePath → RunSpec → Action Begun
unfolding begun unregistered_execution
start_backtest lib spec_path spec = do
  let config_sha256 = compute_config_sha256 lib spec
  artifacts_dir ← initialize_run_artifacts spec_path spec default_artifacts_root
  let s = session_of spec config_sha256 artifacts_dir
  initial ← build_initial_metadata spec spec_path artifacts_dir config_sha256
  started_at ← utc_now_iso8601
  engine_started_at ← utc_now_iso8601
  let metadata =
      begun started_at (unregistered_execution spec "running" engine_started_at null null) initial
  write_metadata (metadata_path s) metadata
  log_event s "run_started" "running" end
  log_event s "backtest_started" "running" engine_started_fields
  pure (record { session = s; metadata = metadata; engine_started_at = engine_started_at })

unfoldable pub run_engine : Nautilus → RunSpec → Action SmokeResult
run_engine n spec =
    run_nautilus_backtest_smoke n spec.data_spec.dataset spec.venue spec.instrument
      spec.strategy.name spec.strategy.version default_data_root

-- `except Exception as exc` round the engine
unfoldable pub fail_backtest : Begun → Exception → Action SmokeResult
unfolding finished unregistered_execution
fail_backtest b e = do
  let s = b.session
  failed_at ← utc_now_iso8601
  error ← message_of e
  write_metadata (metadata_path s) (
      finished "failed" failed_at
        (unregistered_execution s.spec "failed" b.engine_started_at (str failed_at) (str error))
        b.metadata)
  log_event s "run_failed" "failed" (engine_failed_fields error)
  raise e

pub record BacktestOutcome : Type 0 where
  pub artifacts_dir : FilePath
  pub config_sha256 : String

-- From the event `backtest_completed` on.
unfoldable pub complete_backtest : Begun → SmokeResult → Action BacktestOutcome
unfolding finished completed_execution smoke_metrics_fields render_backtest_nautilus_smoke_report
complete_backtest b r = do
  let s = b.session
  log_event s "backtest_completed" "running" (engine_completed_fields r)
  write_text (metrics_path s) (document (obj (smoke_metrics_fields s.spec r)))
  write_text (report_path s) (
      text (
        render_backtest_nautilus_smoke_report s.spec.run_id s.spec.data_spec.dataset "completed" r))
  completed_at ← utc_now_iso8601
  write_metadata (metadata_path s) (
      finished "completed" completed_at (completed_execution r b.engine_started_at completed_at)
        b.metadata)
  log_event s "run_completed" "completed" end
  pure (record { artifacts_dir = s.artifacts_dir; config_sha256 = s.config_sha256 })

unfoldable pub run_backtest_lifecycle : Libraries → Nautilus → FilePath → Action BacktestOutcome
unfolding start_backtest run_engine fail_backtest complete_backtest
run_backtest_lifecycle lib n spec_path = do
  spec ← load_run_spec lib spec_path
  if spec.mode == "backtest"
      then (do
        b ← start_backtest lib spec_path spec
        r ← handle (run_engine n spec) (fail_backtest b)
        complete_backtest b r)
      else raise invalid_mode
