-- ===== src/Engine/Facts.antt =====
-- What a result of the engine run tells.
use tradingchassis_ops_lab.Base.{
  ◌<◌, String, true, false, ◌≡◌, refl, sym, List, length, leb, eqb, strip, arith, eq_iff,
}
use tradingchassis_ops_lab.Base.Json.{Fields}
use tradingchassis_ops_lab.World.Effects.{FilePath, World, ok, lift}
use tradingchassis_ops_lab.World.Post.{Post, Post-bind, Post-if, Post-raise, Post-pure}
use tradingchassis_ops_lab.Engine.Strategy.{
  Strategy, StrategyConfig, Delivery, create_ops_smoke_demo_strategy, new_strategy, counters,
  deliver_all,
}
use tradingchassis_ops_lab.Engine.Counting.{deliver_all-tally}
use tradingchassis_ops_lab.Engine.Smoke.{
  Nautilus, SmokeResult, Execution, run_nautilus_backtest_smoke, execute_smoke,
  resolve_smoke_instrument, build_smoke_scenario_strategy, smoke_result_of,
}

triggered_by_tally :
    (config : StrategyConfig) (ds : List Delivery)
    → 0 < config.action_bar_index
    → (counters (deliver_all ds (new_strategy config))).deterministic_action_triggered
      ≡ leb config.action_bar_index (counters (deliver_all ds (new_strategy config))).bars_seen
triggered_by_tally config ds h = rw (deliver_all-tally config ds h) refl

module _ (n : Nautilus) (dataset venue instrument name version : String) where
  -- The conditions on the specification, and what the counts satisfy.
  pub record IsSmoke (r : SmokeResult) : Type 0 where
    pub venue_supported : n.lower (strip venue) ≡ "binance"
    pub instrument_supported : n.upper (strip instrument) ≡ "BTCUSDT"
    pub scenario_supported : n.lower (strip name) ≡ "ops_smoke_demo"
    pub same_dataset : r.dataset ≡ dataset
    pub same_scenario : (r.scenario_name ≡ name) × (r.scenario_version ≡ version)
    pub registered : r.strategy_registered ≡ true
    pub some_candles : 0 < r.input_candles_count
    pub triggered_at_five : r.deterministic_action_triggered ≡ leb 5 r.bars_seen

  supported :
      {id : String}
      → resolve_smoke_instrument n venue instrument ≡ ok id
      → (n.lower (strip venue) ≡ "binance") × (n.upper (strip instrument) ≡ "BTCUSDT")
  unfolding resolve_smoke_instrument
  supported h = ground (
    arith,
    eq_iff (n.lower (strip venue)) "binance",
    eq_iff (n.upper (strip instrument)) "BTCUSDT",
  )

  built :
      (id bar_type : String) {s : Strategy}
      → build_smoke_scenario_strategy n name version id bar_type ≡ ok s
      → (n.lower (strip name) ≡ "ops_smoke_demo")
        × (create_ops_smoke_demo_strategy id bar_type version ≡ s)
  unfolding build_smoke_scenario_strategy
  built id bar_type h = ground (arith, eq_iff (n.lower (strip name)) "ops_smoke_demo")

  triggered :
      (id bar_type : String) (candles bars : List Fields) (s : Strategy) (e : Execution)
      → create_ops_smoke_demo_strategy id bar_type version ≡ s
      → (smoke_result_of n dataset name version candles bars s e).deterministic_action_triggered
        ≡ leb 5 (smoke_result_of n dataset name version candles bars s e).bars_seen
  unfolding smoke_result_of create_ops_smoke_demo_strategy
  triggered id bar_type candles bars s e h =
      rw (sym h) (triggered_by_tally _ e.deliveries (omega arith))

  facts :
      (candles bars : List Fields) (id bar_type : String) (s : Strategy) (e : Execution)
      → eqb (length candles) 0 ≡ false
      → resolve_smoke_instrument n venue instrument ≡ ok id
      → build_smoke_scenario_strategy n name version id bar_type ≡ ok s
      → IsSmoke (smoke_result_of n dataset name version candles bars s e)
  unfolding smoke_result_of
  facts candles bars id bar_type s e full found made = record {
    venue_supported = (supported found).0;
    instrument_supported = (supported found).1;
    scenario_supported = (built id bar_type made).0;
    same_dataset = refl;
    same_scenario = (refl, refl);
    registered = refl;
    some_candles = ground arith;
    triggered_at_five = triggered id bar_type candles bars s e (built id bar_type made).1;
  }

  execute_smoke-IsSmoke :
      (candles : List Fields) (w : World)
      → Post (execute_smoke n dataset venue instrument name version candles w) (λ r w'. IsSmoke r)
  unfolding execute_smoke lift
  execute_smoke-IsSmoke candles w =
      Post-if (eqb (length candles) 0) _ _ w _ (λ _. Post-raise _ w _)
        λ full. Post-bind _ _ w _ λ id found. Post-bind _ _ _ _ λ bars _.
          Post-bind _ _ _ _ λ s made.
            Post-bind _ _ _ _ λ e _. Post-pure _ _ _ (facts candles bars id _ s e full found made)

  -- An engine run that returns was given a supported venue, instrument and scenario and at least one
  -- candle; its result names the dataset and the scenario it was given, and says that the action
  -- was triggered exactly if the strategy has seen at least five bars.
  pub run_nautilus_backtest_smoke-IsSmoke :
      (root : FilePath) (w : World)
      → Post
          (run_nautilus_backtest_smoke n dataset venue instrument name version root w)
          (λ r w'. IsSmoke r)
  unfolding run_nautilus_backtest_smoke
  run_nautilus_backtest_smoke-IsSmoke root w =
      Post-bind _ _ w _ λ candles _. execute_smoke-IsSmoke candles _
