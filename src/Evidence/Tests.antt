-- ===== src/Evidence/Tests.antt =====
-- A backtest and a paper run in a small world, compared.
use tradingchassis_ops_lab.Base.{inl, String, true, none, [], ◌∷◌, ◌≡◌, refl, if◌then◌else◌, ◌==◌}
use tradingchassis_ops_lab.Base.Json.{Fields, str, obj, field, end, get}
use tradingchassis_ops_lab.World.Content.{document, text, journal}
use tradingchassis_ops_lab.World.Effects.{FilePath, Entry, absent, dir, file, World}
use tradingchassis_ops_lab.World.Returns.{Returns}
use tradingchassis_ops_lab.Runs.Opened.{text_in}
use tradingchassis_ops_lab.Runs.Tests.{world}
use tradingchassis_ops_lab.Evidence.Load.{Python, events_of}
use tradingchassis_ops_lab.Evidence.Compare.{compare_backtest_paper}
use tradingchassis_ops_lab.Evidence.Status.{status_by_modes}
use tradingchassis_ops_lab.Evidence.Complete.{IsReadable, compare_backtest_paper-readable}
use tradingchassis_ops_lab.Evidence.Missing.{IsBlank, compare_backtest_paper-missing}

abbrev python : Python
python = record { equal = λ _ _. true; str_of = λ _. "?" }

abbrev backtest_dir : FilePath
backtest_dir = "b1" ∷ []

abbrev paper_dir : FilePath
paper_dir = "p1" ∷ []

abbrev mode_of : String → String
mode_of folder = if folder == "b1" then "backtest" else "paper"

-- Two runs with the files that a comparison needs.
abbrev run_entries : FilePath → Entry
run_entries [] = dir
run_entries (s ∷ []) = dir
run_entries (s ∷ t ∷ []) =
    if s == "metadata.json"
    then file (document (obj (field "mode" (str (mode_of t)) end)))
    else if s == "metrics.json"
    then file (document (obj end))
    else if s == "journal.jsonl"
    then file (journal [])
    else if s == "report.md"
    then file (text "# Report\n")
    else absent
run_entries (_ ∷ _ ∷ _ ∷ _) = absent

abbrev runs : World
runs = record (world absent absent) { entry = run_entries }

abbrev metadata_in : String → Fields
metadata_in folder = field "mode" (str (mode_of folder)) end

readable_run : (folder : String) → IsReadable runs (folder ∷ [])
unfolding events_of
readable_run folder = record {
  metadata = record { fields = metadata_in folder; holds = refl; readable = refl };
  metrics = record { fields = end; holds = refl; readable = refl };
  events = record { lines = []; events = []; holds = refl; parsed = refl; readable = refl };
  report = refl;
  readiness = inl refl;
  probe = inl refl;
  result = inl refl;
}

compare_backtest_paper-readable_example :
    Returns (compare_backtest_paper python backtest_dir paper_dir none runs) (λ fs w.
      (text_in fs "comparison_status" ≡ status_by_modes (metadata_in "b1") (metadata_in "p1"))
      × ((p : FilePath) → w.entry p ≡ runs.entry p))
unfolding readable_run
compare_backtest_paper-readable_example =
    compare_backtest_paper-readable python backtest_dir paper_dir none runs (readable_run "b1")
      (readable_run "p1")

-- The status of these runs.
status_here : status_by_modes (metadata_in "b1") (metadata_in "p1") ≡ "differences_expected"
unfolding get
status_here = refl

compare_backtest_paper-missing_example :
    Returns
      (compare_backtest_paper python backtest_dir ("p2" ∷ []) none (world absent absent))
      (λ fs w. IsBlank fs × ((p : FilePath) → w.entry p ≡ (world absent absent).entry p))
compare_backtest_paper-missing_example =
    compare_backtest_paper-missing python backtest_dir ("p2" ∷ []) none (world absent absent) refl
