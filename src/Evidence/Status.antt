-- ===== src/Evidence/Status.antt =====
-- The status that a comparison gives.
use tradingchassis_ops_lab.Base.{
  String, Bool, true, false, not, ◌&&◌, Option, none, some, List, [], ◌∷◌, ◌++◌, map, ◌≡◌, refl,
  ◌∙◌, ap, if◌then◌else◌, ◌==◌, arith, Bool-cases, inl, inr,
}
use tradingchassis_ops_lab.Base.Sorting.{sorted}
use tradingchassis_ops_lab.Base.Json.{str, Fields, end, get, is_text}
use tradingchassis_ops_lab.World.Content.{loads}
use tradingchassis_ops_lab.World.Effects.{
  FilePath, Entry, World, ok, ◌>>=◌, pure, lift, is_file, read_text, is_file_entry,
}
use tradingchassis_ops_lab.World.Post.{Post, Post-bind, Post-pure}
use tradingchassis_ops_lab.World.Returns.{bind-eq}
use tradingchassis_ops_lab.Runs.Opened.{text_in}
use tradingchassis_ops_lab.Connectivity.Files.{object_in}
use tradingchassis_ops_lab.Connectivity.Readiness.{select}
use tradingchassis_ops_lab.Evidence.Load.{
  Python, core_artifact_names, optional_artifact_names, load_json_required, presence_of,
  build_artifact_presence,
}
use tradingchassis_ops_lab.Evidence.Payloads.{
  comparison_status, missing_names, is_there, reason_of, build_missing_reason, created_at,
  missing_evidence, full_evidence,
}
use tradingchassis_ops_lab.Evidence.Compared.{got}
use tradingchassis_ops_lab.Evidence.Frame.{compare_backtest_paper-Spares}
use tradingchassis_ops_lab.Evidence.Compare.{
  compare_present, compare_by, compare_backtest_paper, is_nil,
}

-- Whether all files that a comparison needs are there.
abbrev pub all_there : World → FilePath → List String → Bool
all_there w d [] = true
all_there w d (n ∷ ns) = is_file_entry (w.entry (n ∷ d)) && all_there w d ns

abbrev pub has_core : World → FilePath → Bool
has_core w d = all_there w d core_artifact_names

presence_of-eq :
    (d : FilePath) (names : List String) (w : World)
    → presence_of d names w ≡ (ok (map (λ n. (n, is_file_entry (w.entry (n ∷ d)))) names), w)
unfolding presence_of is_file pure ◌>>=◌
presence_of-eq d [] w = refl
presence_of-eq d (n ∷ ns) w = rw (presence_of-eq d ns w) refl

abbrev pub presence_at : World → FilePath → List (String × Bool)
presence_at w d =
    map (λ n. (n, is_file_entry (w.entry (n ∷ d))))
      (sorted (core_artifact_names ++ optional_artifact_names))

pub build_artifact_presence-eq :
    (d : FilePath) (w : World) → build_artifact_presence d w ≡ (ok (presence_at w d), w)
unfolding build_artifact_presence
build_artifact_presence-eq d w =
    presence_of-eq d (sorted (core_artifact_names ++ optional_artifact_names)) w

abbrev all_of : (String → Bool) → List String → Bool
all_of t [] = true
all_of t (n ∷ ns) = t n && all_of t ns

nil-select :
    (t : String → Bool) (ns : List String) → is_nil (select (λ n. not (t n)) ns) ≡ all_of t ns
nil-select t [] = refl
nil-select t (n ∷ ns) = elim (Bool-cases (t n)) [
  | inl h ↦ rw h (nil-select t ns)
  | inr h ↦ rw h refl
]

missing_names-nil :
    (w : World) (d : FilePath) → is_nil (missing_names (presence_at w d)) ≡ has_core w d
unfolding sorted
missing_names-nil w d = nil-select (is_there (presence_at w d)) core_artifact_names

pub reasons-nil :
    (side side' : String) (d d' : FilePath) (w : World)
    → is_nil (
        build_missing_reason side d (presence_at w d)
        ++ build_missing_reason side' d' (presence_at w d'))
      ≡ has_core w d && has_core w d'
unfolding build_missing_reason
reasons-nil side side' d d' w =
    nil-reasons side side' d d' (missing_names (presence_at w d)) (missing_names (presence_at w d'))
    ∙ ap (λ b. b && is_nil (missing_names (presence_at w d'))) (missing_names-nil w d)
    ∙ ap (λ b. has_core w d && b) (missing_names-nil w d')
  where
    nil-reasons :
        (side side' : String) (d d' : FilePath) (xs ys : List String)
        → is_nil (reason_of side d xs ++ reason_of side' d' ys) ≡ is_nil xs && is_nil ys
    nil-reasons side side' d d' [] [] = refl
    nil-reasons side side' d d' [] (_ ∷ _) = refl
    nil-reasons side side' d d' (_ ∷ _) ys = refl

-- The object in a file of a run, or none of its keys.
abbrev pub object_or_end : Entry → Fields
object_or_end e = elim (object_in e) [ some fs ↦ fs | none ↦ end ]

load-world : (q : FilePath) (w : World) → (load_json_required q w).1 ≡ w
unfolding load_json_required read_text lift ◌>>=◌ loads
load-world q w = ground arith

load-object :
    (q : FilePath) (w : World) {fs : Fields}
    → (load_json_required q w).0 ≡ ok fs
    → fs ≡ object_or_end (w.entry q)
unfolding load_json_required read_text lift ◌>>=◌ loads
load-object q w h = ground arith

abbrev pub has_mode : Fields → String → Bool
has_mode fs m = elim (get fs "mode") [ some (str s) ↦ s == m | _ ↦ false ]

-- The status by the modes of two runs.
abbrev pub status_by_modes : Fields → Fields → String
status_by_modes b p =
    if has_mode b "backtest" && has_mode p "paper"
    then "differences_expected"
    else "incompatible_runs"

abbrev pub status_of_metadata : World → FilePath → FilePath → String
status_of_metadata w bd pd =
    status_by_modes (object_or_end (w.entry ("metadata.json" ∷ bd)))
      (object_or_end (w.entry ("metadata.json" ∷ pd)))

-- The status of the evidence on two runs.
abbrev pub expected_status : World → FilePath → FilePath → String
expected_status w bd pd =
    if has_core w bd && has_core w pd then status_of_metadata w bd pd else "missing_artifacts"

mode_of-text : (fs : Fields) (m : String) → is_text (got fs "mode") m ≡ has_mode fs m
mode_of-text fs m = ground arith

comparison_status-modes : (b p : Fields) → comparison_status b p ≡ status_by_modes b p
comparison_status-modes b p = rw (mode_of-text b "backtest") (rw (mode_of-text p "paper") refl)

module _ (py : Python) (bd pd : FilePath) (ts : Option String) (w : World) where
  Post-compare_present :
      (b p : List (String × Bool))
      → Post
          (compare_present py bd pd b p ts w)
          (λ fs _. text_in fs "comparison_status" ≡ status_of_metadata w bd pd)
  unfolding compare_present full_evidence get
  Post-compare_present b p =
      let m1 = "metadata.json" ∷ bd in
      let m2 = "metrics.json" ∷ bd in
      Post-bind _ _ w _ λ backtest h. Post-bind _ _ _ _ λ metrics _. Post-bind _ _ _ _ λ paper k.
        Post-bind _ _ _ _ λ _ _. Post-bind _ _ _ _ λ _ _. Post-bind _ _ _ _ λ _ _.
          Post-bind _ _ _ _ λ _ _. Post-bind _ _ _ _ λ _ _. Post-bind _ _ _ _ λ _ _.
            Post-bind _ _ _ _ λ _ _. Post-bind _ _ _ _ λ _ _. Post-bind _ _ _ _ λ _ _.
              Post-bind _ _ _ _ λ at _. Post-pure _ _ _ (
                comparison_status-modes backtest paper
                ∙ ap (λ m. status_by_modes m paper) (load-object m1 w h)
                ∙ ap (status_by_modes (object_or_end (w.entry m1))) (
                    load-object ("metadata.json" ∷ pd) _ k
                    ∙ ap (λ v. object_or_end (v.entry ("metadata.json" ∷ pd)))
                        (load-world m2 (load_json_required m1 w).1 ∙ load-world m1 w)))

  -- The status by whether the files are there.
  abbrev status_if : Bool → String
  status_if there = if there then status_of_metadata w bd pd else "missing_artifacts"

  Post-compare_by :
      (b p : List (String × Bool)) (there : Bool)
      → is_nil (build_missing_reason "backtest" bd b ++ build_missing_reason "paper" pd p) ≡ there
      → Post
          (compare_by py bd pd b p ts w)
          (λ fs _. text_in fs "comparison_status" ≡ status_if there)
  unfolding compare_by missing_evidence get
  Post-compare_by b p true h = rw h (Post-compare_present b p)
  Post-compare_by b p false h = rw h (Post-bind (created_at ts) _ w _ λ at _. Post-pure _ _ _ refl)

  -- A comparison that returns has the status `missing_artifacts` exactly if a file that both runs need
  -- is missing in one of them, and otherwise `differences_expected` exactly if the metadata of the
  -- one has the mode `backtest` and that of the other the mode `paper`, and `incompatible_runs` if
  -- not; and whether it returns or raises, it leaves every path as it was.
  pub compare_backtest_paper-status :
      Post
        (compare_backtest_paper py bd pd ts w)
        (λ fs _. text_in fs "comparison_status" ≡ expected_status w bd pd)
      × ((p : FilePath) → (compare_backtest_paper py bd pd ts w).1.entry p ≡ w.entry p)
  unfolding compare_backtest_paper
  compare_backtest_paper-status = (
    rw (bind-eq _ _ w (build_artifact_presence-eq bd w)) (
        rw (bind-eq _ _ w (build_artifact_presence-eq pd w)) (
          Post-compare_by (presence_at w bd) (presence_at w pd) (has_core w bd && has_core w pd)
            (reasons-nil "backtest" "paper" bd pd w))),
    λ p. ((compare_backtest_paper-Spares {p = p} py bd pd ts).at w).entry_same,
  )
