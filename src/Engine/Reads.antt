-- ===== src/Engine/Reads.antt =====
-- What the engine run reads of the world, and what its result tells.
use tradingchassis_ops_lab.Base.{String, ◌≡◌, List, arith}
use tradingchassis_ops_lab.Base.Json.{Fields}
use tradingchassis_ops_lab.World.Effects.{
  FilePath, World, is_file, read_text, ◌>>=◌, lift, raise, pure,
}
use tradingchassis_ops_lab.World.Returns.{result-bind}
use tradingchassis_ops_lab.Engine.Smoke.{
  Nautilus, candles_path, run_nautilus_backtest_smoke, load_prepared_candles, execute_smoke,
}

module _ (n : Nautilus) (dataset venue instrument name version : String) (root : FilePath) where
  -- The run leaves the world as it is.
  pub run_nautilus_backtest_smoke-world :
      (w : World)
      → (run_nautilus_backtest_smoke n dataset venue instrument name version root w).1 ≡ w
  unfolding run_nautilus_backtest_smoke load_prepared_candles execute_smoke is_file read_text raise
      lift pure ◌>>=◌
  run_nautilus_backtest_smoke-world w = ground arith

  load_prepared_candles-eq :
      (v w : World)
      → v.entry (candles_path root dataset) ≡ w.entry (candles_path root dataset)
      → v.unreadable ≡ w.unreadable
      → (load_prepared_candles n dataset root v).0 ≡ (load_prepared_candles n dataset root w).0
  unfolding load_prepared_candles is_file read_text raise lift ◌>>=◌
  load_prepared_candles-eq v w e u = rw (e, u) (ground arith)

  execute_smoke-eq :
      (candles : List Fields) (v w : World)
      → (execute_smoke n dataset venue instrument name version candles v).0
        ≡ (execute_smoke n dataset venue instrument name version candles w).0
  unfolding execute_smoke raise lift pure ◌>>=◌
  execute_smoke-eq candles v w = ground arith

  -- Its outcome is a function of the entry at the path of the candles and of the right to read it.
  pub run_nautilus_backtest_smoke-eq :
      (v w : World)
      → v.entry (candles_path root dataset) ≡ w.entry (candles_path root dataset)
      → v.unreadable ≡ w.unreadable
      → (run_nautilus_backtest_smoke n dataset venue instrument name version root v).0
        ≡ (run_nautilus_backtest_smoke n dataset venue instrument name version root w).0
  unfolding run_nautilus_backtest_smoke
  run_nautilus_backtest_smoke-eq v w e u =
      result-bind _ _ v w (load_prepared_candles-eq v w e u)
        (λ candles v' w'. execute_smoke-eq candles v' w')
