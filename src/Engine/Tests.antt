-- ===== src/Engine/Tests.antt =====
-- A strategy and an engine run on small data.
use tradingchassis_ops_lab.Base.{◌∷◌, [], ◌≡◌, arith}
use tradingchassis_ops_lab.World.Content.{text}
use tradingchassis_ops_lab.World.Effects.{file}
use tradingchassis_ops_lab.World.Post.{Post}
use tradingchassis_ops_lab.Engine.Strategy.{
  StrategyConfig, bar, order_submitted, order_filled, new_strategy, deliver_all, counters,
}
use tradingchassis_ops_lab.Engine.Counting.{tally, deliver_all-tally}
use tradingchassis_ops_lab.Engine.Smoke.{default_data_root, run_nautilus_backtest_smoke}
use tradingchassis_ops_lab.Engine.Facts.{IsSmoke, run_nautilus_backtest_smoke-IsSmoke}
use tradingchassis_ops_lab.Runs.BacktestTests.{nautilus, lab}

abbrev config : StrategyConfig
config = record {
  instrument_id = "BTCUSDT.BINANCE";
  bar_type = "BTCUSDT.BINANCE-1-MINUTE-LAST-EXTERNAL";
  scenario_version = "1";
  action_bar_index = 2;
}

deliver_all-tally_example :
    counters (deliver_all (bar ∷ order_submitted ∷ bar ∷ order_filled ∷ []) (new_strategy config))
    ≡ tally config (bar ∷ order_submitted ∷ bar ∷ order_filled ∷ [])
deliver_all-tally_example =
    deliver_all-tally config (bar ∷ order_submitted ∷ bar ∷ order_filled ∷ []) (omega arith)

run_nautilus_backtest_smoke-IsSmoke_example :
    Post
      (run_nautilus_backtest_smoke nautilus "btc" "BINANCE" "BTCUSDT" "ops_smoke_demo" "1"
        default_data_root
        (lab (file (text "csv"))))
      (λ r w. IsSmoke nautilus "btc" "BINANCE" "BTCUSDT" "ops_smoke_demo" "1" r)
run_nautilus_backtest_smoke-IsSmoke_example =
    run_nautilus_backtest_smoke-IsSmoke nautilus "btc" "BINANCE" "BTCUSDT" "ops_smoke_demo" "1"
      default_data_root (lab (file (text "csv")))
