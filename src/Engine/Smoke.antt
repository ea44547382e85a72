-- ===== src/Engine/Smoke.antt =====
-- engines/nautilus/backtest.py and engines/nautilus/config.py. The package nautilus_trader, pandas
-- and Python's case mappings are a parameter.
use tradingchassis_ops_lab.Base.{
  ℕ, String, Bool, true, Option, none, some, List, [], ◌∷◌, length, ◌==◌, ◌&&◌, ◌<>◌, eqb, strip,
  if◌then◌else◌,
}
use tradingchassis_ops_lab.Base.Json.{Fields}
use tradingchassis_ops_lab.World.Content.{Content}
use tradingchassis_ops_lab.World.Effects.{
  FilePath, Result, ok, raised, Action, pure, raise, lift, ◌>>=◌, is_file, read_text, value_error,
  unknown_scenario, prepared_dataset_not_found,
}
use tradingchassis_ops_lab.Engine.Strategy.{
  Strategy, Delivery, deliver_all, counters, create_ops_smoke_demo_strategy,
}

-- What the engine did with the strategy: its calls of the strategy's handlers, the field
-- `iterations` of its result where it has one, and the time it took in milliseconds.
pub record Execution : Type 0 where
  pub deliveries : List Delivery
  pub iterations : Option ℕ
  pub elapsed_ms : ℕ

-- A row of the data frame is the value of each column.
pub record Nautilus : Type 0 where
  pub lower : String → String  -- `str.lower`
  pub upper : String → String  -- `str.upper`
  pub read_csv : Content → Result (List Fields)  -- `pd.read_csv` with `pd.to_datetime`
  pub btcusdt_binance : String  -- the `id` of `TestInstrumentProvider.btcusdt_binance()`
  pub process : String → String → List Fields → Result (List Fields)  -- `BarDataWrangler(…).process`
  pub execute : Strategy → List Fields → Result Execution  -- `BacktestEngine`
  pub nautilus_version : String  -- `nautilus_trader.__version__`

-- `NautilusSmokeBacktestResult`
pub record SmokeResult : Type 0 where
  pub dataset : String
  pub input_candles_count : ℕ
  pub bars_processed : ℕ
  pub engine_duration_ms : ℕ
  pub nautilus_version : String
  pub scenario_name : String
  pub scenario_version : String
  pub strategy_registered : Bool
  pub bars_seen : ℕ
  pub orders_submitted : ℕ
  pub fills_count : ℕ
  pub deterministic_action_triggered : Bool

abbrev pub candles_path : FilePath → String → FilePath
candles_path data_root dataset = "candles_1m.csv" ∷ dataset ∷ "datasets" ∷ data_root

abbrev pub default_data_root : FilePath
default_data_root = "data" ∷ []

unfoldable pub load_prepared_candles : Nautilus → String → FilePath → Action (List Fields)
load_prepared_candles n dataset data_root = do
  there ← is_file (candles_path data_root dataset)
  if there
      then (do c ← read_text (candles_path data_root dataset); lift (n.read_csv c))
      else raise prepared_dataset_not_found

unfoldable pub resolve_smoke_instrument : Nautilus → String → String → Result String
resolve_smoke_instrument n venue instrument =
    if n.lower (strip venue) == "binance" && n.upper (strip instrument) == "BTCUSDT"
    then ok n.btcusdt_binance
    else raised value_error

abbrev pub resolve_smoke_bar_type : String → String
resolve_smoke_bar_type instrument_id = instrument_id <> "-1-MINUTE-LAST-EXTERNAL"

unfoldable pub build_smoke_scenario_strategy :
    Nautilus → String → String → String → String → Result Strategy
unfolding create_ops_smoke_demo_strategy
build_smoke_scenario_strategy n scenario_name scenario_version instrument_id bar_type =
    if n.lower (strip scenario_name) == "ops_smoke_demo"
    then ok (create_ops_smoke_demo_strategy instrument_id bar_type scenario_version)
    else raised unknown_scenario

-- `int(result.iterations) if result is not None else len(bars)`
abbrev pub processed : Option ℕ → List Fields → ℕ
processed none bars = length bars
processed (some n) bars = n

unfoldable pub smoke_result_of :
    Nautilus
    → String
    → String
    → String
    → List Fields
    → List Fields
    → Strategy
    → Execution
    → SmokeResult
unfolding deliver_all counters
smoke_result_of n dataset scenario_name scenario_version candles bars strategy e =
    let c = counters (deliver_all e.deliveries strategy) in
    record {
      dataset = dataset;
      input_candles_count = length candles;
      bars_processed = processed e.iterations bars;
      engine_duration_ms = e.elapsed_ms;
      nautilus_version = n.nautilus_version;
      scenario_name = scenario_name;
      scenario_version = scenario_version;
      strategy_registered = true;
      bars_seen = c.bars_seen;
      orders_submitted = c.orders_submitted;
      fills_count = c.fills_count;
      deterministic_action_triggered = c.deterministic_action_triggered;
    }

-- From the candles on.
unfoldable pub execute_smoke :
    Nautilus → String → String → String → String → String → List Fields → Action SmokeResult
unfolding resolve_smoke_instrument build_smoke_scenario_strategy smoke_result_of
execute_smoke n dataset venue instrument scenario_name scenario_version candles =
    if eqb (length candles) 0 then raise value_error else (do
      instrument_id ← lift (resolve_smoke_instrument n venue instrument)
      let bar_type = resolve_smoke_bar_type instrument_id
      bars ← lift (n.process bar_type instrument_id candles)
      strategy ←
          lift
            (build_smoke_scenario_strategy n scenario_name scenario_version instrument_id bar_type)
      e ← lift (n.execute strategy bars)
      pure (smoke_result_of n dataset scenario_name scenario_version candles bars strategy e))

unfoldable pub run_nautilus_backtest_smoke :
    Nautilus → String → String → String → String → String → FilePath → Action SmokeResult
unfolding load_prepared_candles execute_smoke
run_nautilus_backtest_smoke n dataset venue instrument scenario_name scenario_version data_root = do
  candles ← load_prepared_candles n dataset data_root
  execute_smoke n dataset venue instrument scenario_name scenario_version candles
