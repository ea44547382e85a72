-- ===== src/Evidence/Complete.antt =====
-- A comparison of runs whose files can be read.
use tradingchassis_ops_lab.Base.{
  String, Bool, true, false, Option, none, some, List, ◌∷◌, ◌++◌, ◌≡◌, refl, ◌∙◌, ◌⊎◌, inl, inr,
}
use tradingchassis_ops_lab.Base.Json.{obj, Fields}
use tradingchassis_ops_lab.World.Content.{document, journal, Line, loads, lines_of}
use tradingchassis_ops_lab.World.Effects.{
  FilePath, absent, file, World, ok, Result, raised, pure, lift, ◌>>=◌, read_text, is_file,
  is_file_entry,
}
use tradingchassis_ops_lab.World.Post.{Post}
use tradingchassis_ops_lab.World.Returns.{
  Returns, Returns-bind, Returns-pure, Returns-and, Returns-map, Returns-after, bind-eq,
}
use tradingchassis_ops_lab.Runs.Opened.{text_in}
use tradingchassis_ops_lab.Evidence.Load.{
  Python, load_json_required, load_json_optional, load_journal_events, events_of,
}
use tradingchassis_ops_lab.Evidence.Payloads.{created_at, build_missing_reason}
use tradingchassis_ops_lab.Evidence.Compare.{
  compare_present, compare_by, compare_backtest_paper, is_nil,
}
use tradingchassis_ops_lab.Evidence.Frame.{compare_backtest_paper-Spares}
use tradingchassis_ops_lab.Evidence.Status.{
  has_core, presence_at, build_artifact_presence-eq, reasons-nil, status_by_modes, expected_status,
  compare_backtest_paper-status,
}
use tradingchassis_ops_lab.Evidence.Missing.{Returns-created_at}

-- A file that holds an object.
pub record HasObject (w : World) (q : FilePath) : Type 0 where
  pub fields : Fields
  pub holds : w.entry q ≡ file (document (obj fields))
  pub readable : w.unreadable q ≡ false

-- A journal whose lines are objects or blank.
pub record HasJournal (w : World) (q : FilePath) : Type 0 where
  pub lines : List Line
  pub events : List Fields
  pub holds : w.entry q ≡ file (journal lines)
  pub parsed : events_of lines ≡ ok events
  pub readable : w.unreadable q ≡ false

-- The files of a run, the optional ones if they are there.
pub record IsReadable (w : World) (d : FilePath) : Type 0 where
  pub metadata : HasObject w ("metadata.json" ∷ d)
  pub metrics : HasObject w ("metrics.json" ∷ d)
  pub events : HasJournal w ("journal.jsonl" ∷ d)
  pub report : is_file_entry (w.entry ("report.md" ∷ d)) ≡ true
  pub readiness :
      (w.entry ("connectivity_readiness.json" ∷ d) ≡ absent)
      ⊎ HasObject w ("connectivity_readiness.json" ∷ d)
  pub probe :
      (w.entry ("connectivity_probe.json" ∷ d) ≡ absent)
      ⊎ HasObject w ("connectivity_probe.json" ∷ d)
  pub result :
      (w.entry ("reconciliation_result.json" ∷ d) ≡ absent)
      ⊎ HasObject w ("reconciliation_result.json" ∷ d)

module _ {w : World} {q : FilePath} where
  load_json_required-eq : (h : HasObject w q) → load_json_required q w ≡ (ok h.fields, w)
  unfolding load_json_required read_text lift ◌>>=◌ loads
  load_json_required-eq h = rw h.readable (rw h.holds refl)

  load_journal_events-eq : (h : HasJournal w q) → load_journal_events q w ≡ (ok h.events, w)
  unfolding load_journal_events read_text lift ◌>>=◌ lines_of
  load_journal_events-eq h = rw h.readable (rw h.holds (rw h.parsed refl))

  loaded : (w.entry q ≡ absent) ⊎ HasObject w q → Option Fields
  loaded (inl _) = none
  loaded (inr h) = some h.fields

  load_json_optional-eq :
      (h : (w.entry q ≡ absent) ⊎ HasObject w q) → load_json_optional q w ≡ (ok (loaded h), w)
  unfolding load_json_optional is_file pure ◌>>=◌ loaded
  load_json_optional-eq (inl h) = rw h refl
  load_json_optional-eq (inr h) = rw h.holds (rw (load_json_required-eq h) refl)

IsReadable-has_core : {w : World} {d : FilePath} → IsReadable w d → has_core w d ≡ true
IsReadable-has_core r =
    rw r.metadata.holds (rw r.metrics.holds (rw r.events.holds (rw r.report refl)))

Returns-Post :
    {A : Type 0} (x : Result A × World) (P : A → World → Type 0)
    → Returns x (λ _ _. Unit {0})
    → Post x P
    → Returns x P
Returns-Post (ok a, w) P h k = k
Returns-Post (raised e, w) P h k = absurd h

module _ (py : Python) (bd pd : FilePath) (ts : Option String) (w : World) where
  Returns-compare_present :
      (b p : List (String × Bool))
      → IsReadable w bd
      → IsReadable w pd
      → Returns (compare_present py bd pd b p ts w) (λ _ _. Unit {0})
  unfolding compare_present
  Returns-compare_present b p r s = Returns-after _ _ w _ (load_json_required-eq r.metadata) (
      Returns-after _ _ w _ (load_json_required-eq r.metrics) (
        Returns-after _ _ w _ (load_json_required-eq s.metadata) (
          Returns-after _ _ w _ (load_json_required-eq s.metrics) (
            Returns-after _ _ w _ (load_journal_events-eq r.events) (
              Returns-after _ _ w _ (load_journal_events-eq s.events) (
                Returns-after _ _ w _ (load_json_optional-eq r.readiness) (
                  Returns-after _ _ w _ (load_json_optional-eq s.readiness) (
                    Returns-after _ _ w _ (load_json_optional-eq r.probe) (
                      Returns-after _ _ w _ (load_json_optional-eq s.probe) (
                        Returns-after _ _ w _ (load_json_optional-eq r.result) (
                          Returns-after _ _ w _ (load_json_optional-eq s.result) (
                            Returns-bind (created_at ts) _ w _ _ (Returns-created_at ts w)
                              λ at v _. Returns-pure _ _ _ tt))))))))))))

  Returns-compare_by :
      (b p : List (String × Bool))
      → is_nil (build_missing_reason "backtest" bd b ++ build_missing_reason "paper" pd p) ≡ true
      → IsReadable w bd
      → IsReadable w pd
      → Returns (compare_by py bd pd b p ts w) (λ _ _. Unit {0})
  unfolding compare_by
  Returns-compare_by b p h r s = rw h (Returns-compare_present b p r s)

  Returns-compare :
      IsReadable w bd
      → IsReadable w pd
      → Returns (compare_backtest_paper py bd pd ts w) (λ _ _. Unit {0})
  unfolding compare_backtest_paper
  Returns-compare r s = rw (bind-eq _ _ w (build_artifact_presence-eq bd w)) (
      rw (bind-eq _ _ w (build_artifact_presence-eq pd w)) (
        Returns-compare_by (presence_at w bd) (presence_at w pd)
          (reasons-nil "backtest" "paper" bd pd w
            ∙ rw (IsReadable-has_core r) (IsReadable-has_core s))
          r s))

  -- The comparison of two runs whose files can be read returns, with the status
  -- `differences_expected` if the metadata of the one has the mode `backtest` and that of the other
  -- the mode `paper`, and `incompatible_runs` if not, and every path as it was.
  pub compare_backtest_paper-readable :
      (r : IsReadable w bd) (s : IsReadable w pd)
      → Returns (compare_backtest_paper py bd pd ts w) (λ fs w'.
        (text_in fs "comparison_status" ≡ status_by_modes r.metadata.fields s.metadata.fields)
        × ((p : FilePath) → w'.entry p ≡ w.entry p))
  unfolding loads
  compare_backtest_paper-readable r s =
      Returns-and (compare_backtest_paper py bd pd ts w)
        (λ fs _.
          text_in fs "comparison_status" ≡ status_by_modes r.metadata.fields s.metadata.fields)
        (λ w'. (p : FilePath) → w'.entry p ≡ w.entry p)
        (Returns-map (compare_backtest_paper py bd pd ts w)
          (λ fs _. text_in fs "comparison_status" ≡ expected_status w bd pd) _
          (Returns-Post (compare_backtest_paper py bd pd ts w) _ (Returns-compare r s)
            (compare_backtest_paper-status py bd pd ts w).0)
          (λ fs v e. e ∙ status_here))
        (λ p. ((compare_backtest_paper-Spares {p = p} py bd pd ts).at w).entry_same)
    where
      status_here : expected_status w bd pd ≡ status_by_modes r.metadata.fields s.metadata.fields
      status_here =
          rw (IsReadable-has_core r)
            (rw (IsReadable-has_core s) (rw r.metadata.holds (rw s.metadata.holds refl)))
