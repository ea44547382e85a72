-- ===== src/Evidence/Write.antt =====
-- evidence/write.py. Links of the file system are a parameter.
use tradingchassis_ops_lab.Base.{
  ℕ, String, ◌<>◌, Bool, true, false, not, ◌&&◌, ◌||◌, Option, none, some, [], ◌∷◌, strip, is_empty,
  leb, eqb, contains, if◌then◌else◌,
}
use Prim.Native.Char.{code}
use tradingchassis_ops_lab.Base.Search.{occurs, after_prefix}
use tradingchassis_ops_lab.Base.Json.{Json, str, obj, Fields, get}
use tradingchassis_ops_lab.World.Content.{document, text}
use tradingchassis_ops_lab.World.Effects.{
  FilePath, same_path, Result, ok, raised, Action, pure, lift, ◌>>=◌, ◌>>◌, make_dirs, write_text,
  evidence_validation,
}
use tradingchassis_ops_lab.Evidence.Load.{Python}
use tradingchassis_ops_lab.Evidence.Render.{render_backtest_vs_paper_evidence_report}

pub record BacktestPaperEvidencePaths : Type 0 where
  pub evidence_dir : FilePath
  pub json_path : FilePath
  pub report_path : FilePath

-- `path` is `root` or stands below it.
unfoldable pub is_relative_to : FilePath → FilePath → Bool
is_relative_to [] root = same_path [] root
is_relative_to (s ∷ path) root = same_path (s ∷ path) root || is_relative_to path root

-- `[A-Za-z0-9._-]`
abbrev pub is_id_code : ℕ → Bool
is_id_code c =
    (leb 65 c && leb c 90)
    || (leb 97 c && leb c 122)
    || (leb 48 c && leb c 57)
    || eqb c 46
    || eqb c 95
    || eqb c 45

abbrev pub all_id_codes : String → Bool
all_id_codes String.[] = true
all_id_codes (String.◌∷◌ c s) = is_id_code (code c) && all_id_codes s

-- `_VALIDATE_RUN_ID_RE.fullmatch(s)`
abbrev pub matches_id : String → Bool
matches_id s = not (is_empty s) && all_id_codes s

-- `Path(s).is_absolute()`
abbrev pub is_absolute : String → Bool
is_absolute s = elim (after_prefix "/" s) [ none ↦ false | some _ ↦ true ]

unfoldable pub validate_artifact_id : String → Result String
unfolding strip occurs after_prefix
validate_artifact_id value =
    let cleaned = strip value in
    if is_empty cleaned
    then raised evidence_validation
    else if contains ("." ∷ ".." ∷ []) cleaned || occurs ".." cleaned
    then raised evidence_validation
    else if occurs "/" cleaned || occurs "\\" cleaned
    then raised evidence_validation
    else if is_absolute cleaned
    then raised evidence_validation
    else if not (matches_id cleaned)
    then raised evidence_validation
    else ok cleaned

abbrev pub pair_of : Result String → Result String → Result String
pair_of (ok left) (ok right) = ok (left <> "__" <> right)
pair_of (ok left) (raised e) = raised e
pair_of (raised e) right = raised e

unfoldable pub build_backtest_paper_pair_id : String → String → Result String
unfolding validate_artifact_id
build_backtest_paper_pair_id backtest_run_id paper_run_id =
    pair_of (validate_artifact_id backtest_run_id) (validate_artifact_id paper_run_id)

abbrev pub paths_in : FilePath → BacktestPaperEvidencePaths
paths_in evidence_dir = record {
  evidence_dir = evidence_dir;
  json_path = "backtest_vs_paper_evidence.json" ∷ evidence_dir;
  report_path = "backtest_vs_paper_evidence.md" ∷ evidence_dir;
}

-- `real` is `path.resolve()`.
unfoldable pub build_backtest_paper_evidence_paths :
    (FilePath → FilePath) → String → String → FilePath → Result BacktestPaperEvidencePaths
unfolding build_backtest_paper_pair_id is_relative_to
build_backtest_paper_evidence_paths real backtest_run_id paper_run_id evidence_root =
    elim (build_backtest_paper_pair_id backtest_run_id paper_run_id) [
      | raised e ↦ raised e
      | ok pair_id ↦
          if is_relative_to (real (pair_id ∷ real evidence_root)) (real evidence_root)
          then ok (paths_in (real (pair_id ∷ real evidence_root)))
          else raised evidence_validation
    ]

abbrev pub text_field : Option Json → Result String
text_field (some (str s)) = ok s
text_field _ = raised evidence_validation

unfoldable pub write_backtest_paper_evidence_artifacts :
    Python → (FilePath → FilePath) → Fields → FilePath → Action BacktestPaperEvidencePaths
unfolding build_backtest_paper_evidence_paths validate_artifact_id
    render_backtest_vs_paper_evidence_report
write_backtest_paper_evidence_artifacts py real evidence evidence_root = do
  backtest_run_id ← lift (text_field (get evidence "backtest_run_id"))
  paper_run_id ← lift (text_field (get evidence "paper_run_id"))
  backtest_run_id_validated ← lift (validate_artifact_id backtest_run_id)
  paper_run_id_validated ← lift (validate_artifact_id paper_run_id)
  paths ← lift (
      build_backtest_paper_evidence_paths real backtest_run_id_validated paper_run_id_validated
        evidence_root)
  make_dirs paths.evidence_dir
  write_text paths.json_path (document (obj evidence))
  report ← render_backtest_vs_paper_evidence_report py evidence
  write_text paths.report_path (text report)
  pure paths
