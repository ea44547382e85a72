-- ===== src/Runs/BacktestLifecycle.antt =====
-- The start of a backtest lifecycle, in a world in which it can start; it leaves the prepared data
-- alone.
use tradingchassis_ops_lab.Base.{String, [], ◌∷◌, ◌≡◌, refl, false, arith}
use tradingchassis_ops_lab.Base.Json.{Fields, end, get}
use tradingchassis_ops_lab.World.Effects.{FilePath, World, same_path}
use tradingchassis_ops_lab.World.Frame.{
  Spares, Spares-bind, Spares-if, Spares-raise, Spares-pure, Spares-exists, Spares-make_dirs,
  Spares-utc_now_iso8601, Spares-write_text, Spares-append_text, same_path_longer,
}
use tradingchassis_ops_lab.World.Folders.{Spares-mkdir, Spares-copy2, Spares-resolve}
use tradingchassis_ops_lab.World.Returns.{Returns, Returns-bind, Returns-pure}
use tradingchassis_ops_lab.Engine.Smoke.{candles_path, default_data_root}
use tradingchassis_ops_lab.Runs.Spec.{RunSpec}
use tradingchassis_ops_lab.Runs.Artifacts.{
  Libraries, compute_config_sha256, default_artifacts_root, get_run_artifacts_dir,
  initialize_run_artifacts, build_initial_metadata, write_metadata, append_journal_event,
}
use tradingchassis_ops_lab.Runs.Lifecycle.{Session, session_of, log_event, build_lifecycle_event}
use tradingchassis_ops_lab.Runs.Opened.{Open}
use tradingchassis_ops_lab.Runs.Ready.{IsReady, Returns-initialize}
use tradingchassis_ops_lab.Runs.PaperLifecycle.{Returns-build_initial_metadata}
use tradingchassis_ops_lab.Runs.Steps.{Returns-utc_now, Returns-write_metadata, Returns-log_event}
use tradingchassis_ops_lab.Runs.Backtest.{start_backtest, engine_started_fields}
use tradingchassis_ops_lab.Runs.BacktestRuns.{status-begun}

module _ (lib : Libraries) (spec_path : FilePath) (spec : RunSpec) where
  pub Returns-start_backtest :
      (w : World)
      → IsReady spec_path spec.run_id w
      → Returns (start_backtest lib spec_path spec w) (λ b w'.
        (b.session.artifacts_dir ≡ get_run_artifacts_dir spec.run_id default_artifacts_root)
        × Open b.session.artifacts_dir ("run_started" ∷ "backtest_started" ∷ []) "running" w')
  unfolding start_backtest get
  Returns-start_backtest w r =
      Returns-bind _ _ w _ _ (Returns-initialize spec_path spec w r) λ d w1 b.
        let s = session_of spec (compute_config_sha256 lib spec) d in
        Returns-bind _ _ w1 _ _ (Returns-build_initial_metadata spec spec_path d _ w1 b.1)
          λ m w2 o2. Returns-bind _ _ w2 _ _ (Returns-utc_now d w2 o2) λ at w3 o3.
            Returns-bind _ _ w3 _ _ (Returns-utc_now d w3 o3) λ at' w4 o4.
              Returns-bind _ _ w4 _ _ (Returns-write_metadata d w4 o4 _ (status-begun at _ m))
                λ _ w5 o5.
                  Returns-bind _ _ w5 _ _ (Returns-log_event s _ _ end w5 refl o5) λ _ w6 o6.
                    Returns-bind _ _ w6 _ _
                      (Returns-log_event s _ _ engine_started_fields w6 refl o6)
                      λ _ w7 o7. Returns-pure _ w7 _ (b.0, o7)

  module _ (d : String) where
    abbrev candles : FilePath
    candles = candles_path default_data_root d

    run_dir_apart :
        same_path candles (get_run_artifacts_dir spec.run_id default_artifacts_root) ≡ false
    run_dir_apart = same_path_longer candles (spec.run_id ∷ default_artifacts_root) (omega arith)

    Spares-initialize :
        Spares candles (initialize_run_artifacts spec_path spec default_artifacts_root)
    unfolding initialize_run_artifacts
    Spares-initialize = Spares-bind _ _ (Spares-exists _) λ there.
        Spares-if there _ _ (Spares-raise _) (
          Spares-bind _ _ (Spares-make_dirs _ (omega arith)) λ _.
            Spares-bind _ _ (Spares-mkdir _ run_dir_apart)
              λ _. Spares-bind _ _ (Spares-copy2 _ _ refl) λ _. Spares-pure _)

    Spares-log_event :
        (s : Session) (event status : String) (extra : Fields)
        → Spares candles (log_event s event status extra)
    unfolding log_event build_lifecycle_event append_journal_event
    Spares-log_event s event status extra =
        Spares-bind _ _
          (Spares-bind _ _ Spares-utc_now_iso8601
            λ _. Spares-bind _ _ (Spares-resolve _) λ _. Spares-pure _)
          λ payload. Spares-append_text _ _ refl

    Spares-write_metadata :
        (folder : FilePath) (m : Fields)
        → Spares candles (write_metadata ("metadata.json" ∷ folder) m)
    unfolding write_metadata
    Spares-write_metadata folder m = Spares-write_text _ _ refl

    Spares-build_initial_metadata :
        (folder : FilePath) (sha : String)
        → Spares candles (build_initial_metadata spec spec_path folder sha)
    unfolding build_initial_metadata
    Spares-build_initial_metadata folder sha = Spares-bind _ _ Spares-utc_now_iso8601 λ _.
        Spares-bind _ _ (Spares-resolve _)
          λ _. Spares-bind _ _ (Spares-resolve _) λ _. Spares-pure _

    pub Spares-start_backtest : Spares candles (start_backtest lib spec_path spec)
    unfolding start_backtest
    Spares-start_backtest = Spares-bind _ _ Spares-initialize λ folder.
        Spares-bind _ _ (Spares-build_initial_metadata folder _) λ _.
          Spares-bind _ _ Spares-utc_now_iso8601 λ _. Spares-bind _ _ Spares-utc_now_iso8601 λ _.
            Spares-bind _ _ (Spares-write_metadata folder _) λ _.
              Spares-bind _ _ (Spares-log_event _ _ _ _)
                λ _. Spares-bind _ _ (Spares-log_event _ _ _ _) λ _. Spares-pure _
