-- ===== src/Runs/BacktestTests.antt =====
-- A backtest run in a small world, and the theorems on it at that data.
use tradingchassis_ops_lab.Base.{
  true, false, none, arith, [], ◌∷◌, ◌≡◌, refl, inl, if◌then◌else◌, ◌==◌, strip,
}
use tradingchassis_ops_lab.Base.Json.{end}
use tradingchassis_ops_lab.World.Content.{text}
use tradingchassis_ops_lab.World.Effects.{
  FilePath, Entry, absent, file, World, ok, raised, ◌>>=◌, read_text, is_file, os_error_as, lift,
  raise, pure, prepared_dataset_not_found, same_path,
}
use tradingchassis_ops_lab.World.Returns.{Returns}
use tradingchassis_ops_lab.World.Raises.{Raises}
use tradingchassis_ops_lab.Engine.Strategy.{bar}
use tradingchassis_ops_lab.Engine.Smoke.{
  Nautilus, SmokeResult, candles_path, default_data_root, run_nautilus_backtest_smoke,
}
use tradingchassis_ops_lab.Runs.RoundTrip.{validate_run_spec-run_spec_to_normalized_dict}
use tradingchassis_ops_lab.Runs.Artifacts.{
  load_run_spec, default_artifacts_root, get_run_artifacts_dir,
}
use tradingchassis_ops_lab.Runs.Ready.{IsReady}
use tradingchassis_ops_lab.Runs.Backtest.{run_engine, run_backtest_lifecycle}
use tradingchassis_ops_lab.Runs.BacktestEnds.{
  Recorded, run_backtest_lifecycle-completed, run_backtest_lifecycle-failed,
}
use tradingchassis_ops_lab.Runs.Tests.{
  spec_in, spec-IsValidSpec, to_bool_of, libraries, spec_file, world,
}

-- An engine that delivers one bar for each of two candles.
abbrev pub nautilus : Nautilus
nautilus = record {
  lower = λ s. if s == "BINANCE" then "binance" else s;
  upper = λ s. s;
  read_csv = λ _. ok (end ∷ end ∷ []);
  btcusdt_binance = "BTCUSDT.BINANCE";
  process = λ _ _ candles. ok candles;
  execute = λ _ _. ok (record { deliveries = bar ∷ bar ∷ []; iterations = none; elapsed_ms = 7 });
  nautilus_version = "1";
}

abbrev candles : FilePath
candles = candles_path default_data_root "btc"

-- The world of the paper runs, with `prepared` at the path of the candles.
abbrev pub lab : Entry → World
lab prepared =
    let w = world absent absent in
    record w { entry = λ p. if same_path p candles then prepared else w.entry p }

lab-IsReady : (prepared : Entry) → IsReady spec_file "r1" (lab prepared)
lab-IsReady prepared = record {
  writable = λ _. refl;
  source = text "spec";
  spec_there = refl;
  spec_readable = refl;
  artifacts_there = refl;
  root_there = refl;
  fresh = refl;
  fresh_inside = λ s. ground arith;
}

loads_backtest :
    (prepared : Entry)
    → (load_run_spec (libraries "backtest") spec_file (lab prepared)).0 ≡ ok (spec_in "backtest")
unfolding load_run_spec read_text os_error_as lift ◌>>=◌
loads_backtest prepared =
    rw
      (validate_run_spec-run_spec_to_normalized_dict to_bool_of (λ b. refl) (spec_in "backtest")
        (spec-IsValidSpec "backtest" (inl refl)))
      refl

-- The result of that engine.
abbrev two_bars : SmokeResult
two_bars = record {
  dataset = "btc";
  input_candles_count = 2;
  bars_processed = 2;
  engine_duration_ms = 7;
  nautilus_version = "1";
  scenario_name = "ops_smoke_demo";
  scenario_version = "1";
  strategy_registered = true;
  bars_seen = 2;
  orders_submitted = 0;
  fills_count = 0;
  deterministic_action_triggered = false;
}

engine_returns :
    (run_engine nautilus (spec_in "backtest") (lab (file (text "csv")))).0 ≡ ok two_bars
unfolding run_engine run_nautilus_backtest_smoke is_file read_text lift pure raise ◌>>=◌ strip
engine_returns = refl

engine_raises :
    (run_engine nautilus (spec_in "backtest") (lab absent)).0 ≡ raised prepared_dataset_not_found
unfolding run_engine run_nautilus_backtest_smoke is_file read_text lift pure raise ◌>>=◌
engine_raises = refl

run_backtest_lifecycle-completed_example :
    Returns
      (run_backtest_lifecycle (libraries "backtest") nautilus spec_file (lab (file (text "csv"))))
      (λ o w.
        (o.artifacts_dir ≡ get_run_artifacts_dir "r1" default_artifacts_root)
        × Recorded
            (spec_in "backtest")
            "completed"
            ("run_started" ∷ "backtest_started" ∷ "backtest_completed" ∷ "run_completed" ∷ [])
            w)
run_backtest_lifecycle-completed_example =
    run_backtest_lifecycle-completed (libraries "backtest") nautilus spec_file (spec_in "backtest")
      (lab (file (text "csv"))) (loads_backtest (file (text "csv"))) refl
      (lab-IsReady (file (text "csv"))) two_bars engine_returns

run_backtest_lifecycle-failed_example :
    Raises (run_backtest_lifecycle (libraries "backtest") nautilus spec_file (lab absent)) (λ x w.
      (x ≡ prepared_dataset_not_found)
      × Recorded
          (spec_in "backtest")
          "failed"
          ("run_started" ∷ "backtest_started" ∷ "run_failed" ∷ [])
          w)
run_backtest_lifecycle-failed_example =
    run_backtest_lifecycle-failed (libraries "backtest") nautilus spec_file (spec_in "backtest")
      (lab absent) (loads_backtest absent) refl (lab-IsReady absent) prepared_dataset_not_found
      engine_raises
