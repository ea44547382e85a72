-- ===== src/Drills/Fixtures.antt =====
-- The two drills that reconcile fixtures, `execute_stale_market_data_drill` and
-- `execute_reconciliation_mismatch_drill`, with the helpers that only they use.
use tradingchassis_ops_lab.Base.{String, Bool, ◌||◌, none, [], ◌∷◌, map, if◌then◌else◌, ◌==◌}
use tradingchassis_ops_lab.Base.Json.{Json, bool, str, arr, obj, Fields, dict, put, items_of}
use tradingchassis_ops_lab.World.Effects.{
  FilePath, same_path, absent, Exception, World, Result, ok, raised, Action, pure, raise, lift,
  ◌>>=◌, ◌>>◌, handle, is_file, mkdir, read_json, resolve, utc_now_iso8601, drill_artifacts,
  reconciliation_validation, reconciliation_parse, reconciliation_artifacts,
}
use tradingchassis_ops_lab.Reconciliation.Standard.{Standard}
use tradingchassis_ops_lab.Reconciliation.Checks.{Severity, warning, mismatch, severity_text}
use tradingchassis_ops_lab.Reconciliation.Operation.{
  Reconciled, check_json, summary_json, result_path, run_reconciliation_check,
}
use tradingchassis_ops_lab.Drills.Rehearsal.{
  limitations, validate_drill_run_id, ensure_run_dir, write_json, drill_report_path,
  append_optional_journal_event,
}

abbrev pub fixture_object : Json → Result Fields
fixture_object (obj fs) = ok fs
fixture_object _ = raised drill_artifacts

unfoldable pub load_fixture_object : FilePath → Action Fields
load_fixture_object path = do
  regular ← is_file path
  if regular
      then (do payload ← read_json drill_artifacts path; lift (fixture_object payload))
      else raise drill_artifacts

abbrev pub rewrite_fixture_run_id : Fields → String → Fields
rewrite_fixture_run_id payload run_id = put "run_id" (str run_id) payload

-- `path` is `folder` or stands below it.
abbrev is_below : FilePath → FilePath → Bool
is_below folder [] = same_path folder []
is_below folder (s ∷ path) = same_path folder (s ∷ path) || is_below folder path

-- Removing a folder with what is in it.
abbrev emptied : FilePath → World → World
emptied folder w = record w { entry = λ p. if is_below folder p then absent else w.entry p }

-- `with tempfile.TemporaryDirectory() as folder:`; the folder goes whether the block raises or not.
unfoldable pub with_temporary_directory : {A : Type 0} → FilePath → Action A → Action A
with_temporary_directory folder m = do
  mkdir folder
  (λ w. let (r, w') = m w in (r, emptied folder w'))

-- `except ReconciliationError as exc: raise DrillArtifactsError(…) from exc`
abbrev pub as_drill_error : Exception → Exception
as_drill_error reconciliation_validation = drill_artifacts
as_drill_error reconciliation_parse = drill_artifacts
as_drill_error reconciliation_artifacts = drill_artifacts
as_drill_error e = e

-- The arguments: the fixtures folder of the repository and the place of the temporary folder.
pub record Bench : Type 0 where
  pub standard : Standard
  pub fixtures : FilePath  -- examples/reconciliation
  pub temp_path : FilePath

unfoldable pub run_fixture_reconciliation :
    Bench → String → FilePath → FilePath → FilePath → Action Reconciled
unfolding load_fixture_object with_temporary_directory write_json run_reconciliation_check
run_fixture_reconciliation b run_id expected_fixture observed_fixture artifacts_root = do
  expected ← load_fixture_object expected_fixture
  observed ← load_fixture_object observed_fixture
  with_temporary_directory b.temp_path (do
    let expected_path = "expected.json" ∷ b.temp_path
    let observed_path = "observed.json" ∷ b.temp_path
    write_json expected_path (rewrite_fixture_run_id expected run_id)
    write_json observed_path (rewrite_fixture_run_id observed run_id)
    handle
        (run_reconciliation_check b.standard run_id expected_path observed_path artifacts_root none)
        (λ e. raise (as_drill_error e)))

-- What tells one of the two drills from the other.
pub record FixtureDrill : Type 0 where
  pub drill_name : String
  pub outcome : String
  pub expected_status : Severity
  pub observed_fixture : String

abbrev pub stale_market_data : FixtureDrill
stale_market_data = record {
  drill_name = "stale_market_data";
  outcome = "expected_warning";
  expected_status = warning;
  observed_fixture = "observed_stale_warning.json";
}

abbrev pub reconciliation_mismatch : FixtureDrill
reconciliation_mismatch = record {
  drill_name = "reconciliation_mismatch";
  outcome = "expected_mismatch";
  expected_status = mismatch;
  observed_fixture = "observed_position_mismatch.json";
}

pub record FixtureReport : Type 0 where
  pub run_id : String
  pub ts_utc : String
  pub pass : Bool
  pub expected_fixture : String
  pub observed_fixture : String
  pub reconciliation : Reconciled
  pub result : String

unfoldable pub fixture_report_of :
    FixtureDrill → String → String → String → String → Reconciled → String → FixtureReport
fixture_report_of d run_id ts expected observed r result = record {
  run_id = run_id;
  ts_utc = ts;
  pass = severity_text r.status == severity_text d.expected_status;
  expected_fixture = expected;
  observed_fixture = observed;
  reconciliation = r;
  result = result;
}

unfoldable pub fixture_report_fields : FixtureDrill → FixtureReport → Fields
fixture_report_fields d r = dict (
    ("schema_version", str "v1")
    ∷ ("run_id", str r.run_id)
    ∷ ("drill_name", str d.drill_name)
    ∷ ("ts_utc", str r.ts_utc)
    ∷ ("status", str "completed")
    ∷ ("outcome", str d.outcome)
    ∷ ("pass", bool r.pass)
    ∷ (
      "inputs",
      obj (
          dict (
            ("expected_fixture", str r.expected_fixture)
            ∷ ("observed_fixture", str r.observed_fixture)
            ∷ [])),
    )
    ∷ ("checks", arr (items_of (map check_json r.reconciliation.checks)))
    ∷ ("summary", summary_json r.reconciliation.summary)
    ∷ ("limitations", arr (items_of (map str limitations)))
    ∷ ("reconciliation_status", str (severity_text r.reconciliation.status))
    ∷ ("reconciliation_result_path", str r.result)
    ∷ [])

-- The body that the two drills share, with the report and the path that it is written to.
unfoldable pub execute_fixture_drill :
    Bench → FixtureDrill → String → FilePath → Action (FixtureReport × FilePath)
unfolding run_fixture_reconciliation fixture_report_of fixture_report_fields
execute_fixture_drill b d run_id artifacts_root = do
  id ← lift (validate_drill_run_id run_id)
  run_dir ← ensure_run_dir id artifacts_root
  let expected_fixture = "expected_match.json" ∷ b.fixtures
  let observed_fixture = d.observed_fixture ∷ b.fixtures
  r ← run_fixture_reconciliation b id expected_fixture observed_fixture artifacts_root
  ts ← utc_now_iso8601
  expected ← resolve expected_fixture
  observed ← resolve observed_fixture
  result ← resolve (result_path (id ∷ artifacts_root))
  let report = fixture_report_of d id ts expected observed r result
  let report_path = drill_report_path run_dir d.drill_name
  write_json report_path (fixture_report_fields d report)
  append_optional_journal_event run_dir id d.drill_name d.outcome report_path
      (dict (("reconciliation_status", str (severity_text r.status)) ∷ []))
  pure (report, report_path)

unfoldable pub execute_stale_market_data_drill :
    Bench → String → FilePath → Action (FixtureReport × FilePath)
execute_stale_market_data_drill b run_id artifacts_root =
    execute_fixture_drill b stale_market_data run_id artifacts_root

unfoldable pub execute_reconciliation_mismatch_drill :
    Bench → String → FilePath → Action (FixtureReport × FilePath)
execute_reconciliation_mismatch_drill b run_id artifacts_root =
    execute_fixture_drill b reconciliation_mismatch run_id artifacts_root
