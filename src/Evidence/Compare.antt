-- ===== src/Evidence/Compare.antt =====
-- `compare_backtest_paper` of evidence/compare.py.
use tradingchassis_ops_lab.Base.{
  String, Bool, true, false, Option, List, [], ◌∷◌, ◌++◌, if◌then◌else◌,
}
use tradingchassis_ops_lab.Base.Json.{Fields}
use tradingchassis_ops_lab.World.Effects.{FilePath, Action, pure, ◌>>=◌}
use tradingchassis_ops_lab.Evidence.Load.{
  Python, load_json_required, load_json_optional, load_journal_events, read_optional_state,
  build_artifact_presence,
}
use tradingchassis_ops_lab.Evidence.Payloads.{
  build_missing_reason, created_at, Connected, missing_evidence, full_evidence,
}
use tradingchassis_ops_lab.Evidence.Compared.{Side}

abbrev side_of : Fields → Fields → List (String × Bool) → Connected → Side
side_of metadata metrics presence c = record {
  metadata = metadata;
  metrics = metrics;
  presence = presence;
  readiness_state = c.readiness;
  probe_state = c.probe;
}

abbrev connected_of : Option Fields → Option Fields → Option Fields → Connected
connected_of readiness probe reconciliation = record {
  readiness = read_optional_state readiness "state";
  probe = read_optional_state probe "state";
  reconciliation = read_optional_state reconciliation "status";
}

-- Both runs have their files.
unfoldable pub compare_present :
    Python
    → FilePath
    → FilePath
    → List (String × Bool)
    → List (String × Bool)
    → Option String
    → Action Fields
unfolding load_json_required load_journal_events load_json_optional full_evidence created_at
    read_optional_state
compare_present py backtest_dir paper_dir b p created_at_utc = do
  backtest_metadata ← load_json_required ("metadata.json" ∷ backtest_dir)
  backtest_metrics ← load_json_required ("metrics.json" ∷ backtest_dir)
  paper_metadata ← load_json_required ("metadata.json" ∷ paper_dir)
  paper_metrics ← load_json_required ("metrics.json" ∷ paper_dir)
  backtest_events ← load_journal_events ("journal.jsonl" ∷ backtest_dir)
  paper_events ← load_journal_events ("journal.jsonl" ∷ paper_dir)
  backtest_readiness ← load_json_optional ("connectivity_readiness.json" ∷ backtest_dir)
  paper_readiness ← load_json_optional ("connectivity_readiness.json" ∷ paper_dir)
  backtest_probe ← load_json_optional ("connectivity_probe.json" ∷ backtest_dir)
  paper_probe ← load_json_optional ("connectivity_probe.json" ∷ paper_dir)
  backtest_result ← load_json_optional ("reconciliation_result.json" ∷ backtest_dir)
  paper_result ← load_json_optional ("reconciliation_result.json" ∷ paper_dir)
  ts ← created_at created_at_utc
  let bc = connected_of backtest_readiness backtest_probe backtest_result
  let pc = connected_of paper_readiness paper_probe paper_result
  pure (
      full_evidence py backtest_dir paper_dir
        (record {
          side = side_of backtest_metadata backtest_metrics b bc;
          events = backtest_events;
          connected = bc;
        })
        (record {
          side = side_of paper_metadata paper_metrics p pc;
          events = paper_events;
          connected = pc;
        })
        ts)

abbrev pub is_nil : List String → Bool
is_nil [] = true
is_nil (_ ∷ _) = false

-- From the presence of the files on.
unfoldable pub compare_by :
    Python
    → FilePath
    → FilePath
    → List (String × Bool)
    → List (String × Bool)
    → Option String
    → Action Fields
unfolding build_missing_reason missing_evidence compare_present created_at
compare_by py backtest_dir paper_dir b p created_at_utc =
    let reasons =
      build_missing_reason "backtest" backtest_dir b ++ build_missing_reason "paper" paper_dir p in
    if is_nil reasons then compare_present py backtest_dir paper_dir b p created_at_utc else (do
      ts ← created_at created_at_utc
      pure (missing_evidence backtest_dir paper_dir b p reasons ts))

unfoldable pub compare_backtest_paper : Python → FilePath → FilePath → Option String → Action Fields
unfolding build_artifact_presence compare_by
compare_backtest_paper py backtest_dir paper_dir created_at_utc = do
  b ← build_artifact_presence backtest_dir
  p ← build_artifact_presence paper_dir
  compare_by py backtest_dir paper_dir b p created_at_utc
