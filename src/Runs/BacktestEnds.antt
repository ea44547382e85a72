-- ===== src/Runs/BacktestEnds.antt =====
-- The backtest lifecycle as a whole, from a world in which it can start.
use mathlib.Core.Path.{subst}
use tradingchassis_ops_lab.Base.{
  String, some, List, [], ◌∷◌, ◌≡◌, ◌≢◌, refl, sym, ◌∙◌, ap, ◌==◌, eq_of_ne,
}
use tradingchassis_ops_lab.World.Effects.{
  FilePath, Exception, World, Action, ok, raised, ◌>>=◌, raise, invalid_mode,
}
use tradingchassis_ops_lab.World.Frame.{Same}
use tradingchassis_ops_lab.World.Returns.{
  Returns, Returns-bind, Returns-handle, Returns-map, Returns_of, Returns-and, bind-eq, pair-eq,
}
use tradingchassis_ops_lab.World.Raises.{
  Raises, Raises-after, Raises-first, Raises-handle, Raises_of, Raises-map,
}
use tradingchassis_ops_lab.Engine.Smoke.{Nautilus, SmokeResult, candles_path, default_data_root}
use tradingchassis_ops_lab.Engine.Reads.{
  run_nautilus_backtest_smoke-world, run_nautilus_backtest_smoke-eq,
}
use tradingchassis_ops_lab.Runs.Spec.{RunSpec}
use tradingchassis_ops_lab.Runs.Artifacts.{
  Libraries, load_run_spec, default_artifacts_root, get_run_artifacts_dir,
}
use tradingchassis_ops_lab.Runs.Opened.{Open, event_names, metadata_status}
use tradingchassis_ops_lab.Runs.Ready.{IsReady}
use tradingchassis_ops_lab.Runs.Backtest.{Begun, run_engine, start_backtest, run_backtest_lifecycle}
use tradingchassis_ops_lab.Runs.PaperLifecycle.{load_run_spec-world}
use tradingchassis_ops_lab.Runs.BacktestRuns.{Raises-fail_backtest, Returns-complete_backtest}
use tradingchassis_ops_lab.Runs.BacktestLifecycle.{Returns-start_backtest, Spares-start_backtest}

-- The journal of the run holds the events `es`, and its metadata the status `last`.
abbrev pub Recorded : RunSpec → String → List String → World → Type 0
Recorded spec last es w =
    let run_dir = get_run_artifacts_dir spec.run_id default_artifacts_root in
    (event_names (w.entry ("journal.jsonl" ∷ run_dir)) ≡ some es)
    × (metadata_status (w.entry ("metadata.json" ∷ run_dir)) ≡ last)

Recorded-Open :
    (spec : RunSpec) (folder : FilePath) {last : String} {es : List String} (w : World)
    → folder ≡ get_run_artifacts_dir spec.run_id default_artifacts_root
    → Open folder es last w
    → Recorded spec last es w
Recorded-Open spec folder {last} {es} w there o = (
  subst (λ d. event_names (w.entry ("journal.jsonl" ∷ d)) ≡ some es) there o.logged,
  subst (λ d. metadata_status (w.entry ("metadata.json" ∷ d)) ≡ last) there o.recorded,
)

module _ (lib : Libraries) (n : Nautilus) (spec_path : FilePath) (spec : RunSpec) (w : World)
    (loads : (load_run_spec lib spec_path w).0 ≡ ok spec) where
  after_load :
      {B : Type 0} (f : RunSpec → Action B) → (load_run_spec lib spec_path >>= f) w ≡ f spec w
  after_load f = bind-eq _ f w (pair-eq _ loads (load_run_spec-world lib spec_path w))

  -- The specification loads and its mode is not `backtest`: it is refused, and the world is left as it
  -- was.
  pub run_backtest_lifecycle-other_mode :
      spec.mode ≢ "backtest" → run_backtest_lifecycle lib n spec_path w ≡ (raised invalid_mode, w)
  unfolding run_backtest_lifecycle raise
  run_backtest_lifecycle-other_mode other =
      after_load _ ∙ (rw (eq_of_ne spec.mode "backtest" other) refl)

  module _ (backtest : spec.mode ≡ "backtest") (ready : IsReady spec_path spec.run_id w) where
    abbrev IsBegun : Begun → World → Type 0
    IsBegun b w' =
        ((b.session.artifacts_dir ≡ get_run_artifacts_dir spec.run_id default_artifacts_root)
          × Open b.session.artifacts_dir ("run_started" ∷ "backtest_started" ∷ []) "running" w')
        × Same (candles_path default_data_root spec.data_spec.dataset) w w'

    begins : Returns (start_backtest lib spec_path spec w) IsBegun
    begins =
        Returns-and _ _ (Same (candles_path default_data_root spec.data_spec.dataset) w)
          (Returns-start_backtest lib spec_path spec w ready)
          ((Spares-start_backtest lib spec_path spec spec.data_spec.dataset).at w)

    -- The start does not change what the engine reads.
    run_engine-eq :
        (v : World)
        → Same (candles_path default_data_root spec.data_spec.dataset) w v
        → (run_engine n spec v).0 ≡ (run_engine n spec w).0
    unfolding run_engine
    run_engine-eq v s =
        run_nautilus_backtest_smoke-eq n _ _ _ _ _ default_data_root v w s.entry_same
          s.unreadable_same

    engine-world : (v : World) → (run_engine n spec v).1 ≡ v
    unfolding run_engine
    engine-world v = run_nautilus_backtest_smoke-world n _ _ _ _ _ default_data_root v

    -- The specification loads, its mode is `backtest`, nothing is at the place of the run in the
    -- folder artifacts/runs, which is there, every path can be written, and the engine returns a
    -- result on the prepared data. The lifecycle returns the directory of the run; its journal then
    -- holds exactly the start, the start of the backtest, its completion and the completion of the
    -- run, and its metadata have the status `completed`.
    pub run_backtest_lifecycle-completed :
        (r : SmokeResult)
        → (run_engine n spec w).0 ≡ ok r
        → Returns (run_backtest_lifecycle lib n spec_path w) (λ o w'.
          (o.artifacts_dir ≡ get_run_artifacts_dir spec.run_id default_artifacts_root)
          × Recorded spec "completed"
              ("run_started" ∷ "backtest_started" ∷ "backtest_completed" ∷ "run_completed" ∷ [])
              w')
    unfolding run_backtest_lifecycle
    run_backtest_lifecycle-completed r runs = rw (after_load _) (
        rw (ap (λ m. m == "backtest") backtest) (
          Returns-bind _ _ w _ _ begins λ b w1 k.
            Returns-bind _ _ w1 _ _
              (Returns-handle _ _ w1 _
                (Returns_of (run_engine n spec) w1 (run_engine-eq w1 k.1 ∙ runs)))
              λ r' w2 e.
                Returns-map _
                  (λ o w'.
                    (o.artifacts_dir ≡ b.session.artifacts_dir)
                    × Open b.session.artifacts_dir
                        ("run_started" ∷ "backtest_started" ∷ "backtest_completed" ∷ "run_completed"
                          ∷ [])
                        "completed" w')
                  _
                  (Returns-complete_backtest b r' w2 (
                    subst (Open b.session.artifacts_dir _ "running") (sym (e.1 ∙ engine-world w1))
                      k.0.1))
                  λ o w3 c. (c.0 ∙ k.0.0, Recorded-Open spec b.session.artifacts_dir w3 k.0.0 c.1)))

    -- The specification loads, its mode is `backtest`, nothing is at the place of the run in the
    -- folder artifacts/runs, which is there, every path can be written, and the engine raises an
    -- exception on the prepared data. The lifecycle raises the same exception; its journal then
    -- holds exactly the start, the start of the backtest and the failure, and its metadata have the
    -- status `failed`.
    pub run_backtest_lifecycle-failed :
        (e : Exception)
        → (run_engine n spec w).0 ≡ raised e
        → Raises (run_backtest_lifecycle lib n spec_path w) (λ x w'.
          (x ≡ e)
          × Recorded spec "failed" ("run_started" ∷ "backtest_started" ∷ "run_failed" ∷ []) w')
    unfolding run_backtest_lifecycle
    run_backtest_lifecycle-failed e fails = rw (after_load _) (
        rw (ap (λ m. m == "backtest") backtest) (
          Raises-after _ _ w _ _ begins λ b w1 k. Raises-first _ _ w1 _ (
            Raises-handle _ _ w1 _ _
              (Raises_of (run_engine n spec) w1 (run_engine-eq w1 k.1 ∙ fails))
              λ x w2 c.
                Raises-map _
                  (λ y w'.
                    (y ≡ x)
                    × Open b.session.artifacts_dir
                        ("run_started" ∷ "backtest_started" ∷ "run_failed" ∷ []) "failed" w')
                  _
                  (Raises-fail_backtest b x w2 (
                    subst (Open b.session.artifacts_dir _ "running") (sym (c.1 ∙ engine-world w1))
                      k.0.1))
                  λ y w3 d. (d.0 ∙ c.0, Recorded-Open spec b.session.artifacts_dir w3 k.0.0 d.1))))
