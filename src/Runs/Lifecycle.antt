-- ===== src/Runs/Lifecycle.antt =====
-- What the lifecycles of runs/paper.py and runs/backtest.py share: the run that is under way, and
-- `_build_lifecycle_event`, which the two files repeat word for word.
use tradingchassis_ops_lab.Base.{String, ◌∷◌, []}
use tradingchassis_ops_lab.Base.Json.{str, Fields, dict, update}
use tradingchassis_ops_lab.World.Effects.{FilePath, Action, pure, ◌>>=◌, resolve, utc_now_iso8601}
use tradingchassis_ops_lab.Runs.Spec.{RunSpec}
use tradingchassis_ops_lab.Runs.Artifacts.{append_journal_event}

-- The arguments that every event of a run is given.
pub record Session : Type 0 where
  pub spec : RunSpec
  pub config_sha256 : String
  pub artifacts_dir : FilePath

abbrev pub session_of : RunSpec → String → FilePath → Session
session_of spec config_sha256 artifacts_dir = record {
  spec = spec;
  config_sha256 = config_sha256;
  artifacts_dir = artifacts_dir;
}

abbrev pub journal_path : Session → FilePath
journal_path s = "journal.jsonl" ∷ s.artifacts_dir

abbrev pub metadata_path : Session → FilePath
metadata_path s = "metadata.json" ∷ s.artifacts_dir

abbrev pub metrics_path : Session → FilePath
metrics_path s = "metrics.json" ∷ s.artifacts_dir

abbrev pub report_path : Session → FilePath
report_path s = "report.md" ∷ s.artifacts_dir

unfoldable pub build_lifecycle_event : Session → String → String → Fields → Action Fields
build_lifecycle_event s event status extra_fields = do
  ts ← utc_now_iso8601
  dir_resolved ← resolve s.artifacts_dir
  pure (
      update
        (dict (
          ("ts_utc", str ts)
          ∷ ("event", str event)
          ∷ ("run_id", str s.spec.run_id)
          ∷ ("mode", str s.spec.mode)
          ∷ ("engine", str s.spec.engine)
          ∷ ("status", str status)
          ∷ ("config_sha256", str s.config_sha256)
          ∷ ("artifacts_dir", str dir_resolved)
          ∷ []))
        extra_fields)

-- `append_journal_event(journal_path, _build_lifecycle_event(…))`
unfoldable pub log_event : Session → String → String → Fields → Action (Unit {0})
unfolding build_lifecycle_event append_journal_event
log_event s event status extra_fields = do
  payload ← build_lifecycle_event s event status extra_fields
  append_journal_event (journal_path s) payload
