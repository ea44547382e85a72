-- ===== src/Evidence/Missing.antt =====
-- A comparison of runs that lack files.
use tradingchassis_ops_lab.Base.{
  String, Bool, false, ◌&&◌, Option, none, some, List, ◌++◌, ◌≡◌, refl, Bool-cases, inl, inr, ◌∙◌,
  is_empty,
}
use tradingchassis_ops_lab.Base.Json.{arr, nil, Fields, get}
use tradingchassis_ops_lab.World.Effects.{FilePath, World, utc_now_iso8601}
use tradingchassis_ops_lab.World.Returns.{Returns, Returns-bind, Returns-pure, Returns-and, bind-eq}
use tradingchassis_ops_lab.Runs.Opened.{text_in}
use tradingchassis_ops_lab.Evidence.Load.{Python}
use tradingchassis_ops_lab.Evidence.Payloads.{build_missing_reason, created_at, missing_evidence}
use tradingchassis_ops_lab.Evidence.Compare.{is_nil, compare_by, compare_backtest_paper}
use tradingchassis_ops_lab.Evidence.Frame.{compare_backtest_paper-Spares}
use tradingchassis_ops_lab.Evidence.Status.{
  has_core, presence_at, build_artifact_presence-eq, reasons-nil,
}

pub Returns-created_at :
    (o : Option String) (w : World) → Returns (created_at o w) (λ _ _. Unit {0})
unfolding created_at utc_now_iso8601
Returns-created_at none w = tt
Returns-created_at (some ts) w = elim (Bool-cases (is_empty ts)) [
  | inl h ↦ rw h tt
  | inr h ↦ rw h (Returns-pure ts w (λ _ _. Unit {0}) tt)
]

-- What a comparison tells if it compares nothing.
pub record IsBlank (fs : Fields) : Type 0 where
  pub status_missing : text_in fs "comparison_status" ≡ "missing_artifacts"
  pub nothing_compared : get fs "compared_fields" ≡ some (arr nil)

module _ (py : Python) (bd pd : FilePath) (ts : Option String) (w : World) where
  Returns-compare_by :
      (b p : List (String × Bool))
      → is_nil (build_missing_reason "backtest" bd b ++ build_missing_reason "paper" pd p) ≡ false
      → Returns (compare_by py bd pd b p ts w) (λ fs _. IsBlank fs)
  unfolding compare_by missing_evidence get
  Returns-compare_by b p h = rw h (
      Returns-bind (created_at ts) _ w _ _ (Returns-created_at ts w)
        λ at v _. Returns-pure _ _ _ (record { status_missing = refl; nothing_compared = refl }))

  -- If a file that both runs need is missing in one of them, the comparison still returns: with the
  -- status `missing_artifacts` and no compared fields, and every path as it was.
  pub compare_backtest_paper-missing :
      has_core w bd && has_core w pd ≡ false
      → Returns
          (compare_backtest_paper py bd pd ts w)
          (λ fs w'. IsBlank fs × ((p : FilePath) → w'.entry p ≡ w.entry p))
  unfolding compare_backtest_paper
  compare_backtest_paper-missing h =
      Returns-and (compare_backtest_paper py bd pd ts w) (λ fs _. IsBlank fs)
        (λ w'. (p : FilePath) → w'.entry p ≡ w.entry p) (returned h)
        (λ p. ((compare_backtest_paper-Spares {p = p} py bd pd ts).at w).entry_same)
    where
      returned :
          has_core w bd && has_core w pd ≡ false
          → Returns (compare_backtest_paper py bd pd ts w) (λ fs _. IsBlank fs)
      returned h = rw (bind-eq _ _ w (build_artifact_presence-eq bd w)) (
          rw (bind-eq _ _ w (build_artifact_presence-eq pd w)) (
            Returns-compare_by (presence_at w bd) (presence_at w pd)
              (reasons-nil "backtest" "paper" bd pd w ∙ h)))
