-- ===== src/Reconciliation/Operation.antt =====
-- `_load_json_object` and `run_reconciliation_check`.
use tradingchassis_ops_lab.Base.{
  ℕ, String, Bool, not, Option, none, some, List, [], ◌∷◌, map, if◌then◌else◌, ◌==◌, strip,
  is_empty,
}
use tradingchassis_ops_lab.Base.Json.{
  Json, bool, int, pos, str, arr, obj, Items, Fields, dict, items_of,
}
use tradingchassis_ops_lab.World.Content.{document}
use tradingchassis_ops_lab.World.Effects.{
  FilePath, Result, ok, raised, Action, pure, raise, lift, os_error_as, guard, ◌>>=◌, ◌>>◌, is_dir,
  is_file, read_json, write_text, resolve, datetime_now, reconciliation_validation,
  reconciliation_parse, reconciliation_artifacts,
}
use tradingchassis_ops_lab.KillSwitch.Parse.{value}
use tradingchassis_ops_lab.Runs.Artifacts.{append_journal_event}
use tradingchassis_ops_lab.Reconciliation.Standard.{Standard}
use tradingchassis_ops_lab.Reconciliation.Validate.{as_dict, validate_payload}
use tradingchassis_ops_lab.Reconciliation.Checks.{
  Severity, severity_text, Check, text_at, compare_position,
}
use tradingchassis_ops_lab.Reconciliation.Orders.{compare_open_orders}
use tradingchassis_ops_lab.Reconciliation.Freshness.{compare_freshness}
use tradingchassis_ops_lab.Reconciliation.Rollup.{Summary, summarize_checks, rollup_status, passes}

unfoldable pub load_json_object : FilePath → Action Fields
load_json_object path = do
  regular ← is_file path
  if regular
      then (do payload ← read_json reconciliation_parse path; lift (as_dict payload))
      else raise reconciliation_parse

-- A value that validation has found to be a dictionary, a list, or a dictionary or null.
abbrev pub fields_at : Fields → String → Fields
fields_at fs k = elim (value fs k) [ obj gs ↦ gs | _ ↦ Fields.end ]

abbrev pub items_at : Fields → String → Items
items_at fs k = elim (value fs k) [ arr vs ↦ vs | _ ↦ Items.nil ]

abbrev pub optional_fields_at : Fields → String → Option Fields
optional_fields_at fs k = elim (value fs k) [ obj gs ↦ some gs | _ ↦ none ]

abbrev pub check_json : Check → Json
check_json c = obj (
    dict (
      ("name", str c.name)
      ∷ ("severity", str (severity_text c.severity))
      ∷ ("matched", bool c.matched)
      ∷ ("details", str c.details)
      ∷ []))

abbrev pub summary_json : Summary → Json
summary_json s = obj (
    dict (
      ("ok", int (pos s.fine_count))
      ∷ ("warning", int (pos s.warning_count))
      ∷ ("mismatch", int (pos s.mismatch_count))
      ∷ ("unknown", int (pos s.unknown_count))
      ∷ []))

-- The result that is written and returned, without its constant schema version.
pub record Reconciled : Type 0 where
  pub run_id : String
  pub ts_utc : String
  pub status : Severity
  pub expected_path : String
  pub observed_path : String
  pub checks : List Check
  pub summary : Summary
  pub pass : Bool

unfoldable pub result_fields : Reconciled → Fields
result_fields r = dict (
    ("schema_version", str "v1")
    ∷ ("run_id", str r.run_id)
    ∷ ("ts_utc", str r.ts_utc)
    ∷ ("status", str (severity_text r.status))
    ∷ (
      "inputs",
      obj (
          dict
            (("expected_path", str r.expected_path) ∷ ("observed_path", str r.observed_path) ∷ [])),
    )
    ∷ ("checks", arr (items_of (map check_json r.checks)))
    ∷ ("summary", summary_json r.summary)
    ∷ ("pass", bool r.pass)
    ∷ [])

abbrev pub result_path : FilePath → FilePath
result_path run_dir = "reconciliation_result.json" ∷ run_dir

abbrev pub journal_path : FilePath → FilePath
journal_path run_dir = "journal.jsonl" ∷ run_dir

-- The list of the three checks, if the first two are there.
abbrev pub three : Result Check → Result Check → Check → Result (List Check)
three (raised e) open_orders freshness = raised e
three (ok position) (raised e) freshness = raised e
three (ok position) (ok open_orders) freshness = ok (position ∷ open_orders ∷ freshness ∷ [])

-- The three checks, in the order of the code.
unfoldable pub run_checks : Standard → Fields → Fields → ℕ → Result (List Check)
run_checks std expected observed now =
    three (compare_position std (fields_at expected "position") (fields_at observed "position"))
      (compare_open_orders std (items_at expected "open_orders") (items_at observed "open_orders"))
      (compare_freshness std (optional_fields_at expected "freshness")
        (optional_fields_at observed "freshness") now)

unfoldable pub reconciled_of : String → String → String → String → List Check → Reconciled
reconciled_of run_id ts expected_path observed_path checks = record {
  run_id = run_id;
  ts_utc = ts;
  status = rollup_status checks;
  expected_path = expected_path;
  observed_path = observed_path;
  checks = checks;
  summary = summarize_checks checks;
  pass = passes (summarize_checks checks);
}

-- `(now_utc or datetime.now(UTC))`
abbrev pub effective_now : Option ℕ → Action ℕ
effective_now none = datetime_now
effective_now (some now) = pure now

-- The event in a journal that is there.
unfoldable pub announce : FilePath → Reconciled → Action (Unit {0})
announce run_dir r = do
  regular ← is_file (journal_path run_dir)
  if regular
      then (do
        resolved ← resolve (result_path run_dir)
        append_journal_event (journal_path run_dir) (
            dict (
              ("ts_utc", str r.ts_utc)
              ∷ ("event", str "reconciliation_checked")
              ∷ ("run_id", str r.run_id)
              ∷ ("status", str (severity_text r.status))
              ∷ ("summary", summary_json r.summary)
              ∷ ("result_path", str resolved)
              ∷ [])))
      else pure tt

-- The result file, and then the event.
unfoldable pub persist : FilePath → Reconciled → Action (Unit {0})
unfolding announce
persist run_dir r =
    os_error_as reconciliation_artifacts
      (write_text (result_path run_dir) (document (obj (result_fields r))))
    >> announce run_dir r

-- What precedes the writing: the payloads are loaded, validated and compared.
unfoldable pub reconcile : Standard → String → FilePath → FilePath → Option ℕ → Action Reconciled
unfolding load_json_object run_checks reconciled_of
reconcile std run_id expected_path observed_path now_utc = do
  expected ← load_json_object expected_path
  observed ← load_json_object observed_path
  lift (validate_payload std expected)
  lift (validate_payload std observed)
  lift (guard (text_at expected "run_id" == run_id) reconciliation_validation)
  lift (guard (text_at observed "run_id" == run_id) reconciliation_validation)
  now ← effective_now now_utc
  checks ← lift (run_checks std expected observed now)
  expected_resolved ← resolve expected_path
  observed_resolved ← resolve observed_path
  pure (reconciled_of run_id (std.isoformat_z now) expected_resolved observed_resolved checks)

unfoldable pub run_reconciliation_check :
    Standard → String → FilePath → FilePath → FilePath → Option ℕ → Action Reconciled
unfolding persist reconcile
run_reconciliation_check std run_id expected_path observed_path artifacts_root now_utc = do
  lift (guard (not (is_empty (strip run_id))) reconciliation_validation)
  let run_dir = strip run_id ∷ artifacts_root
  has_run_dir ← is_dir run_dir
  if has_run_dir
      then (do
        r ← reconcile std (strip run_id) expected_path observed_path now_utc
        persist run_dir r
        pure r)
      else raise reconciliation_artifacts
