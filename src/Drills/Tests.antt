-- ===== src/Drills/Tests.antt =====
-- A restart rehearsal of a run whose directory is empty.
use tradingchassis_ops_lab.Base.{true, false, none, [], ◌∷◌, ◌≡◌, refl, if◌then◌else◌, strip}
use tradingchassis_ops_lab.World.Effects.{
  FilePath, absent, dir, World, Result, ok, same_path, ◌>>=◌, is_dir, is_file, make_dirs,
  write_text, resolve, utc_now_iso8601,
}
use tradingchassis_ops_lab.Reconciliation.Checks.{check_of, fine, mismatch}
use tradingchassis_ops_lab.Drills.Rehearsal.{
  RestartReport, drill_report_path, validate_drill_run_id, ensure_run_dir, inspect, write_json,
  append_optional_journal_event, required_artifacts, report_of, execute_restart_recovery_drill,
}
use tradingchassis_ops_lab.Drills.Report.{first_matched, execute_restart_recovery_drill-pass}

abbrev runs : FilePath
runs = "runs" ∷ []

abbrev start : World
start = record {
  entry = λ p. if same_path p ("r1" ∷ runs) then dir else if same_path p runs then dir else absent;
  unreadable = λ _. false;
  unwritable = λ _. false;
  left = λ _. none;
  env = λ _. none;
  resolved = λ p. "/srv";
  message = λ e. "failed";
  clock = λ _. "2024-01-01T00:00:00Z";
  micros = λ _. 63839664000000000;
  ticks = 0;
  uuids = λ _. "id";
  drawn = 0;
}

abbrev report : RestartReport
report = record {
  run_id = "r1";
  ts_utc = "2024-01-01T00:00:00Z";
  outcome = "simulated_recovery_ok";
  pass = true;
  run_dir = "/srv";
  checks =
      check_of "required_artifacts" mismatch false "metadata_present=False run_spec_present=False"
      ∷ check_of "simulation_scope" fine true
          "no process restart performed; this is artifact-based recovery rehearsal"
      ∷ [];
  summary = record {
    run_dir_exists = true;
    metadata_present = false;
    run_spec_present = false;
    journal_present = false;
    metrics_present = false;
  };
}

abbrev run : Result (RestartReport × FilePath) × World
run = execute_restart_recovery_drill "r1" runs start

returns : run ≡ (ok (report, drill_report_path ("r1" ∷ runs) "restart_recovery"), run.1)
unfolding execute_restart_recovery_drill validate_drill_run_id ensure_run_dir inspect write_json
    append_optional_journal_event required_artifacts report_of is_dir is_file make_dirs write_text
    resolve utc_now_iso8601 strip ◌>>=◌
returns = refl

execute_restart_recovery_drill-pass_example :
    (report.pass ≡ true) × (first_matched report.checks ≡ false)
unfolding strip
execute_restart_recovery_drill-pass_example =
    execute_restart_recovery_drill-pass "r1" runs start refl refl returns
