-- ===== src/Drills/Rehearsal.antt =====
-- `execute_restart_recovery_drill`, with the helpers that it uses.
use tradingchassis_ops_lab.Base.{
  String, ◌<>◌, Bool, true, ◌&&◌, List, [], ◌∷◌, map, if◌then◌else◌, strip, is_empty,
}
use tradingchassis_ops_lab.Base.Json.{
  Json, bool, str, arr, obj, Fields, dict, update, items_of, bool_text,
}
use tradingchassis_ops_lab.World.Content.{document}
use tradingchassis_ops_lab.World.Effects.{
  FilePath, parent, Result, ok, raised, Action, pure, raise, lift, os_error_as, ◌>>=◌, ◌>>◌, is_dir,
  is_file, make_dirs, write_text, resolve, utc_now_iso8601, drill_validation, drill_artifacts,
}
use tradingchassis_ops_lab.Runs.Artifacts.{append_journal_event}
use tradingchassis_ops_lab.Reconciliation.Checks.{Check, check_of, fine, mismatch}
use tradingchassis_ops_lab.Reconciliation.Operation.{check_json}

abbrev pub limitations : List String
limitations =
    "local file-based demonstration only" ∷ "no exchange connectivity"
    ∷ "no order cancel/flatten/restart orchestration" ∷ []

unfoldable pub validate_drill_run_id : String → Result String
validate_drill_run_id run_id =
    if is_empty (strip run_id) then raised drill_validation else ok (strip run_id)

unfoldable pub ensure_run_dir : String → FilePath → Action FilePath
ensure_run_dir run_id artifacts_root = do
  there ← is_dir (run_id ∷ artifacts_root)
  if there then pure (run_id ∷ artifacts_root) else raise drill_artifacts

unfoldable pub write_json : FilePath → Fields → Action (Unit {0})
write_json path payload =
    os_error_as drill_artifacts
      (make_dirs (parent path) >> write_text path (document (obj payload)))

abbrev pub drill_report_path : FilePath → String → FilePath
drill_report_path run_dir drill_name = (drill_name <> ".json") ∷ "drills" ∷ run_dir

unfoldable pub append_optional_journal_event :
    FilePath → String → String → String → FilePath → Fields → Action (Unit {0})
append_optional_journal_event run_dir run_id drill_name outcome report_path extras = do
  regular ← is_file ("journal.jsonl" ∷ run_dir)
  if regular
      then (do
        ts ← utc_now_iso8601
        resolved ← resolve report_path
        append_journal_event ("journal.jsonl" ∷ run_dir) (
            update
              (dict (
                ("ts_utc", str ts)
                ∷ ("event", str "failure_drill_executed")
                ∷ ("run_id", str run_id)
                ∷ ("drill_name", str drill_name)
                ∷ ("outcome", str outcome)
                ∷ ("status", str "completed")
                ∷ ("report_path", str resolved)
                ∷ []))
              extras))
      else pure tt

-- What the drill finds in the directory of the run.
pub record Presence : Type 0 where
  pub run_dir_exists : Bool
  pub metadata_present : Bool
  pub run_spec_present : Bool
  pub journal_present : Bool
  pub metrics_present : Bool

unfoldable pub inspect : FilePath → Action Presence
inspect run_dir = do
  there ← is_dir run_dir
  metadata ← is_file ("metadata.json" ∷ run_dir)
  run_spec ← is_file ("run_spec.yaml" ∷ run_dir)
  journal ← is_file ("journal.jsonl" ∷ run_dir)
  metrics ← is_file ("metrics.json" ∷ run_dir)
  pure (record {
    run_dir_exists = there;
    metadata_present = metadata;
    run_spec_present = run_spec;
    journal_present = journal;
    metrics_present = metrics;
  })

abbrev statement : String
statement = "no process restart performed; this is artifact-based recovery rehearsal"

unfoldable pub required_artifacts : Presence → Check
required_artifacts s =
    let present = s.metadata_present && s.run_spec_present in
    check_of "required_artifacts" (if present then fine else mismatch) present (
      "metadata_present="
      <> bool_text s.metadata_present
      <> " run_spec_present="
      <> bool_text s.run_spec_present)

pub record RestartReport : Type 0 where
  pub run_id : String
  pub ts_utc : String
  pub outcome : String
  pub pass : Bool
  pub run_dir : String
  pub checks : List Check
  pub summary : Presence

abbrev pub presence_json : Presence → Json
presence_json s = obj (
    dict (
      ("run_dir_exists", bool s.run_dir_exists)
      ∷ ("metadata_present", bool s.metadata_present)
      ∷ ("run_spec_present", bool s.run_spec_present)
      ∷ ("journal_present", bool s.journal_present)
      ∷ ("metrics_present", bool s.metrics_present)
      ∷ []))

unfoldable pub report_fields : RestartReport → Fields
report_fields r = dict (
    ("schema_version", str "v1")
    ∷ ("run_id", str r.run_id)
    ∷ ("drill_name", str "restart_recovery")
    ∷ ("ts_utc", str r.ts_utc)
    ∷ ("status", str "completed")
    ∷ ("outcome", str r.outcome)
    ∷ ("pass", bool r.pass)
    ∷ ("inputs", obj (dict (("run_dir", str r.run_dir) ∷ [])))
    ∷ ("checks", arr (items_of (map check_json r.checks)))
    ∷ ("summary", presence_json r.summary)
    ∷ ("limitations", arr (items_of (map str limitations)))
    ∷ ("statement", str statement)
    ∷ [])

unfoldable pub report_of : String → String → String → Presence → RestartReport
unfolding required_artifacts
report_of run_id ts run_dir summary = record {
  run_id = run_id;
  ts_utc = ts;
  outcome = "simulated_recovery_ok";
  pass = true;
  run_dir = run_dir;
  checks = required_artifacts summary ∷ check_of "simulation_scope" fine true statement ∷ [];
  summary = summary;
}

-- The report with the path that it is written to.
unfoldable pub execute_restart_recovery_drill :
    String → FilePath → Action (RestartReport × FilePath)
unfolding inspect report_of write_json append_optional_journal_event
execute_restart_recovery_drill run_id artifacts_root = do
  id ← lift (validate_drill_run_id run_id)
  run_dir ← ensure_run_dir id artifacts_root
  summary ← inspect run_dir
  ts ← utc_now_iso8601
  dir_resolved ← resolve run_dir
  let report = report_of id ts dir_resolved summary
  let report_path = drill_report_path run_dir "restart_recovery"
  write_json report_path (report_fields report)
  append_optional_journal_event run_dir id "restart_recovery" "simulated_recovery_ok" report_path
      (dict (("simulated", bool true) ∷ []))
  pure (report, report_path)
