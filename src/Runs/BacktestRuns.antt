-- ===== src/Runs/BacktestRuns.antt =====
-- What a backtest lifecycle leaves behind, whether its engine returns or raises.
use tradingchassis_ops_lab.Base.{String, false, List, [], ◌∷◌, ◌++◌, ◌≡◌, refl}
use tradingchassis_ops_lab.Base.Json.{bool, str, obj, Fields, end, get, get-put}
use tradingchassis_ops_lab.World.Effects.{Exception, World}
use tradingchassis_ops_lab.World.Returns.{Returns, Returns-bind, Returns-pure}
use tradingchassis_ops_lab.World.Raises.{Raises, Raises-after, Raises-raise}
use tradingchassis_ops_lab.Runs.Opened.{text_in, Open}
use tradingchassis_ops_lab.Runs.Steps.{
  Returns-utc_now, Returns-message_of, Returns-write_metadata, Returns-write_metrics,
  Returns-write_report, Returns-log_event,
}
use tradingchassis_ops_lab.Engine.Smoke.{SmokeResult}
use tradingchassis_ops_lab.Runs.Backtest.{
  Begun, begun, finished, fail_backtest, complete_backtest, engine_failed_fields,
  engine_completed_fields,
}

pub status-begun :
    (at : String) (execution metadata : Fields)
    → text_in (begun at execution metadata) "status" ≡ "running"
unfolding begun
status-begun at execution metadata =
    rw (get-put "engine_execution" "status" (obj execution) _, text_in)
      (rw (get-put "is_placeholder" "status" (bool false) _) (
        rw (get-put "lifecycle" "status" (str "backtest_nautilus_smoke") _) (
          rw (get-put "started_at_utc" "status" (str at) _)
            (rw (get-put "status" "status" (str "running") metadata) refl))))

status-finished :
    (status at : String) (execution metadata : Fields)
    → text_in (finished status at execution metadata) "status" ≡ status
unfolding finished
status-finished status at execution metadata =
    rw (get-put "engine_execution" "status" (obj execution) _, text_in)
      (rw (get-put "completed_at_utc" "status" (str at) _)
        (rw (get-put "status" "status" (str status) metadata) refl))

module _ (b : Begun) where
  abbrev IsOpen : List String → String → World → Type 0
  IsOpen = Open b.session.artifacts_dir

  -- The engine raised: the failure is recorded, and the exception goes on.
  pub Raises-fail_backtest :
      (e : Exception) {es : List String} {status : String} (w : World)
      → IsOpen es status w
      → Raises
          (fail_backtest b e w)
          (λ x w'. (x ≡ e) × IsOpen (es ++ ("run_failed" ∷ [])) "failed" w')
  unfolding fail_backtest get
  Raises-fail_backtest e w o = Raises-after _ _ w _ _ (Returns-utc_now _ w o) λ at w1 o1.
      Raises-after _ _ w1 _ _ (Returns-message_of _ w1 o1 e) λ error w2 o2.
        Raises-after _ _ w2 _ _
          (Returns-write_metadata _ w2 o2 _ (status-finished _ at _ b.metadata))
          λ _ w3 o3.
            Raises-after _ _ w3 _ _
              (Returns-log_event b.session _ _ (engine_failed_fields error) w3 refl o3)
              λ _ w4 o4. Raises-raise SmokeResult e w4 _ (refl, o4)

  pub Returns-complete_backtest :
      (r : SmokeResult) {es : List String} {status : String} (w : World)
      → IsOpen es status w
      → Returns (complete_backtest b r w) (λ o w'.
        (o.artifacts_dir ≡ b.session.artifacts_dir)
        × IsOpen ((es ++ ("backtest_completed" ∷ [])) ++ ("run_completed" ∷ [])) "completed" w')
  unfolding complete_backtest get
  Returns-complete_backtest r w o =
      Returns-bind _ _ w _ _ (Returns-log_event b.session _ _ (engine_completed_fields r) w refl o)
        λ _ w1 o1. Returns-bind _ _ w1 _ _ (Returns-write_metrics _ w1 o1 _) λ _ w2 o2.
          Returns-bind _ _ w2 _ _ (Returns-write_report _ w2 o2 _) λ _ w3 o3.
            Returns-bind _ _ w3 _ _ (Returns-utc_now _ w3 o3) λ at w4 o4.
              Returns-bind _ _ w4 _ _
                (Returns-write_metadata _ w4 o4 _ (status-finished _ at _ b.metadata))
                λ _ w5 o5.
                  Returns-bind _ _ w5 _ _ (Returns-log_event b.session _ _ end w5 refl o5)
                    λ _ w6 o6. Returns-pure _ w6 _ (refl, o6)
