-- ===== src/Runs/Paper.antt =====
-- The paper lifecycle: runs/paper.py, and `render_paper_skeleton_report` of reports/render.py.
-- `run_paper_lifecycle` stands in parts, in the order of the code.
mod Report
pub mod Payloads
unfoldable pub use Payloads.*
use Report.{render_paper_skeleton_report}
use tradingchassis_ops_lab.Base.{
  ℕ, zero, suc, ◌+◌, String, Bool, true, false, none, some, ◌∷◌, [], if◌then◌else◌, ◌==◌,
}
use tradingchassis_ops_lab.Base.Json.{
  Json, null, bool, int, pos, str, obj, Fields, end, dict, get, put,
}
use tradingchassis_ops_lab.World.Content.{document, text}
use tradingchassis_ops_lab.World.Effects.{
  FilePath, Action, pure, raise, ◌>>=◌, ◌>>◌, handle, write_text, message_of, utc_now_iso8601,
  invalid_mode, Exception,
}
use tradingchassis_ops_lab.KillSwitch.Operations.{build_safety_snapshot}
use tradingchassis_ops_lab.Runs.Spec.{RunSpec}
use tradingchassis_ops_lab.Runs.Artifacts.{
  Libraries, load_run_spec, compute_config_sha256, default_artifacts_root, initialize_run_artifacts,
  build_initial_metadata, write_metadata,
}
use tradingchassis_ops_lab.Runs.Lifecycle.{
  Session, metadata_path, metrics_path, report_path, log_event, session_of,
}

-- The events for the indices from `index` on, as many as `remaining`.
unfoldable pub append_synthetic_heartbeat_events : Session → ℕ → ℕ → Action (Unit {0})
append_synthetic_heartbeat_events s index zero = pure tt
append_synthetic_heartbeat_events s index (suc remaining) =
    log_event s "paper_heartbeat" "running" (heartbeat_fields index)
    >> append_synthetic_heartbeat_events s (index + 1) remaining

unfoldable pub write_placeholder_metrics : Session → Action (Unit {0})
write_placeholder_metrics s = write_text (metrics_path s) (
    document (
      obj (
        metrics_fields s.spec "completed" "synthetic_heartbeat" heartbeat_count
          synthetic_duration_seconds)))

unfoldable pub write_blocked_metrics : Session → Action (Unit {0})
write_blocked_metrics s =
    write_text (metrics_path s)
      (document (obj (metrics_fields s.spec "safety_blocked" "blocked_kill_switch" 0 0)))

-- What the rest of the lifecycle uses of the start.
pub record Started : Type 0 where
  pub session : Session
  pub metadata : Fields
  pub paper_started_at : String

-- From the artifacts directory to the event `paper_safety_checked`.
unfoldable pub start_paper : Libraries → FilePath → RunSpec → Fields → Action Started
start_paper lib spec_path spec safety_snapshot = do
  let state = kill_switch_state safety_snapshot
  let config_sha256 = compute_config_sha256 lib spec
  artifacts_dir ← initialize_run_artifacts spec_path spec default_artifacts_root
  let s = session_of spec config_sha256 artifacts_dir
  initial ← build_initial_metadata spec spec_path artifacts_dir config_sha256
  started_at ← utc_now_iso8601
  let safe = started safety_snapshot (lifecycle_outcome state) started_at initial
  paper_started_at ← utc_now_iso8601
  let metadata =
      put "paper_execution"
        (obj (paper_execution "running" "synthetic_heartbeat" paper_started_at null null)) safe
  write_metadata (metadata_path s) metadata
  log_event s "run_started" "running" end
  log_event s "paper_safety_checked" "running" (checked_fields state)
  pure (record { session = s; metadata = metadata; paper_started_at = paper_started_at })

unfoldable pub write_report : Session → String → ℕ → String → Action (Unit {0})
unfolding render_paper_skeleton_report
write_report s status heartbeats state = write_text (report_path s) (
    text (
      render_paper_skeleton_report s.spec.run_id s.spec.mode s.spec.engine status s.config_sha256
        heartbeats "none" state (lifecycle_outcome state)))

pub record Outcome : Type 0 where
  pub artifacts_dir : FilePath
  pub config_sha256 : String
  pub status : String

abbrev pub outcome_of : Session → String → Outcome
outcome_of s status = record {
  artifacts_dir = s.artifacts_dir;
  config_sha256 = s.config_sha256;
  status = status;
}

-- The kill switch is active.
unfoldable pub block_paper : Started → String → Action Outcome
block_paper st state = do
  let s = st.session
  blocked_at ← utc_now_iso8601
  write_metadata (metadata_path s) (
      ended "safety_blocked" blocked_at
        (paper_execution "blocked" "blocked_kill_switch" st.paper_started_at (str blocked_at) null)
        st.metadata)
  log_event s "paper_safety_blocked" "safety_blocked" blocked_fields
  log_event s "run_completed" "safety_blocked" end
  write_blocked_metrics s
  write_report s "safety_blocked" 0 state
  pure (outcome_of s "safety_blocked")

-- `except Exception as exc` round the heartbeats
unfoldable pub fail_paper : Started → Exception → Action (Unit {0})
fail_paper st e = do
  let s = st.session
  failed_at ← utc_now_iso8601
  error ← message_of e
  write_metadata (metadata_path s) (
      ended "failed" failed_at
        (paper_execution "failed" "synthetic_heartbeat" st.paper_started_at (str failed_at)
          (str error))
        st.metadata)
  log_event s "run_failed" "failed" (failed_fields error)
  raise e

-- The kill switch is not active.
unfoldable pub complete_paper : Started → String → Action Outcome
unfolding append_synthetic_heartbeat_events fail_paper write_placeholder_metrics write_report
complete_paper st state = do
  let s = st.session
  log_event s "paper_started" "running" started_fields
  handle (append_synthetic_heartbeat_events s 1 heartbeat_count) (fail_paper st)
  log_event s "paper_completed" "running" completed_fields
  write_placeholder_metrics s
  write_report s "completed" heartbeat_count state
  completed_at ← utc_now_iso8601
  write_metadata (metadata_path s) (
      ended "completed" completed_at
        (paper_execution "completed" "synthetic_heartbeat" st.paper_started_at (str completed_at)
          null)
        st.metadata)
  log_event s "run_completed" "completed" end
  pure (outcome_of s "completed")

unfoldable pub run_paper_lifecycle : Libraries → FilePath → FilePath → Action Outcome
unfolding start_paper block_paper complete_paper
run_paper_lifecycle lib spec_path runtime_root = do
  spec ← load_run_spec lib spec_path
  if spec.mode == "paper"
      then (do
        safety_checked_at ← utc_now_iso8601
        safety_snapshot ← build_safety_snapshot spec.run_id runtime_root (some safety_checked_at)
        let state = kill_switch_state safety_snapshot
        st ← start_paper lib spec_path spec safety_snapshot
        if state == "active" then block_paper st state else complete_paper st state)
      else raise invalid_mode
