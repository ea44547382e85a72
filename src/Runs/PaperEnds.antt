-- ===== src/Runs/PaperEnds.antt =====
-- The paper lifecycle as a whole, from a world in which it can start.
use mathlib.Core.Path.{subst}
use tradingchassis_ops_lab.Base.{
  String, some, List, [], ◌∷◌, ◌≡◌, ◌≢◌, refl, ◌∙◌, ap, if◌then◌else◌, ◌==◌, eq_iff, eq_of_ne,
  arith,
}
use tradingchassis_ops_lab.Base.Json.{Fields}
use tradingchassis_ops_lab.World.Effects.{FilePath, World, ok, utc_now_iso8601}
use tradingchassis_ops_lab.World.Returns.{
  Returns, Returns-bind, Returns-if, bind-eq, pair-eq, Returns-map,
}
use tradingchassis_ops_lab.KillSwitch.Payloads.{KillSwitchStatus}
use tradingchassis_ops_lab.KillSwitch.Operations.{get_kill_switch_status}
use tradingchassis_ops_lab.Runs.Spec.{RunSpec}
use tradingchassis_ops_lab.Runs.Artifacts.{
  Libraries, load_run_spec, default_artifacts_root, get_run_artifacts_dir,
}
use tradingchassis_ops_lab.Runs.Opened.{Open, event_names, metadata_status}
use tradingchassis_ops_lab.Runs.Ready.{IsReady}
use tradingchassis_ops_lab.Runs.Paper.{
  Started, Outcome, block_paper, complete_paper, run_paper_lifecycle, kill_switch_state,
}
use tradingchassis_ops_lab.Runs.PaperRuns.{Returns-block_paper, Returns-complete_paper}
use tradingchassis_ops_lab.Runs.PaperLifecycle.{
  load_run_spec-world, ticked, status-ticked, IsReady-ticked, Returns-snapshot, Returns-start_paper,
}

-- The lifecycle of `spec` returns the status `last`; the journal then holds the events `es`, and the
-- metadata the same status.
abbrev pub Ends : Libraries → FilePath → FilePath → RunSpec → World → String → List String → Type 0
Ends lib spec_path runtime_root spec w last es =
    let run_dir = get_run_artifacts_dir spec.run_id default_artifacts_root in
    Returns (run_paper_lifecycle lib spec_path runtime_root w) (λ o w'.
      (o.status ≡ last)
      × (event_names (w'.entry ("journal.jsonl" ∷ run_dir)) ≡ some es)
      × (metadata_status (w'.entry ("metadata.json" ∷ run_dir)) ≡ last))

module _ (lib : Libraries) (spec_path runtime_root : FilePath) (spec : RunSpec)
    (status : KillSwitchStatus) (w : World) (loads : (load_run_spec lib spec_path w).0 ≡ ok spec)
    (paper : spec.mode ≡ "paper") (ready : IsReady spec_path spec.run_id w)
    (switch : (get_kill_switch_status spec.run_id runtime_root w).0 ≡ ok status) where
  Ends-at :
      (st : Started)
      → st.session.artifacts_dir ≡ get_run_artifacts_dir spec.run_id default_artifacts_root
      → (o : Outcome) (w' : World) {last : String} {es : List String} → o.status ≡ last
      → Open st.session.artifacts_dir es last w'
      → (o.status ≡ last)
        × (event_names (
              w'.entry ("journal.jsonl" ∷ get_run_artifacts_dir spec.run_id default_artifacts_root))
            ≡ some es)
        × (metadata_status (
              w'.entry ("metadata.json" ∷ get_run_artifacts_dir spec.run_id default_artifacts_root))
            ≡ last)
  Ends-at st there o w' {last} {es} e k = (
    e,
    subst (λ d. event_names (w'.entry ("journal.jsonl" ∷ d)) ≡ some es) there k.logged,
    subst (λ d. metadata_status (w'.entry ("metadata.json" ∷ d)) ≡ last) there k.recorded,
  )

  Ends-by :
      (last : String) (es : List String)
      → ((st : Started) (snapshot : Fields) (w1 : World)
          → kill_switch_state snapshot ≡ status.state
          → Open st.session.artifacts_dir ("run_started" ∷ "paper_safety_checked" ∷ []) "running" w1
          → Returns
              ((if kill_switch_state snapshot == "active"
                  then block_paper st (kill_switch_state snapshot)
                  else complete_paper st (kill_switch_state snapshot))
                w1)
              (λ o w'. (o.status ≡ last) × Open st.session.artifacts_dir es last w'))
      → Ends lib spec_path runtime_root spec w last es
  unfolding run_paper_lifecycle utc_now_iso8601
  Ends-by last es k =
      rw
        (bind-eq (load_run_spec lib spec_path) _ w
          (pair-eq _ loads (load_run_spec-world lib spec_path w)))
        (Returns-if (spec.mode == "paper") _ _ w _
          (λ _. rw (bind-eq utc_now_iso8601 _ w refl) (
            Returns-bind _ _ (ticked w) _ _
              (Returns-snapshot spec.run_id runtime_root status _ (ticked w)
                (IsReady-ticked w ready) (status-ticked spec.run_id runtime_root status w switch))
              λ snapshot w1 b.
                Returns-bind _ _ w1 _ _ (Returns-start_paper lib spec_path spec snapshot w1 b.1)
                  λ st w2 c.
                    Returns-map _
                      (λ o w'. (o.status ≡ last) × Open st.session.artifacts_dir es last w') _
                      (k st snapshot w2 b.0 c.1) (λ o w' e. Ends-at st c.0 o w' e.0 e.1)))
          (λ other. absurd (ground (arith, eq_iff spec.mode "paper"))))

  -- The specification loads, its mode is `paper`, nothing is at the place of the run in the folder
  -- artifacts/runs, which is there, every path can be written, and the state of the kill switch can
  -- be read. If that state is `active`, the lifecycle returns the status `safety_blocked`; its
  -- journal then holds exactly the start, the check, the block and the completion, without a
  -- heartbeat, and its metadata have that status too.
  pub run_paper_lifecycle-active :
      status.state ≡ "active"
      → Ends lib spec_path runtime_root spec w "safety_blocked"
          ("run_started" ∷ "paper_safety_checked" ∷ "paper_safety_blocked" ∷ "run_completed" ∷ [])
  run_paper_lifecycle-active active = Ends-by _ _ λ st snapshot w1 found o.
      rw (ap (λ s. s == "active") (found ∙ active)) (Returns-block_paper st _ w1 o)

  -- The specification loads, its mode is `paper`, nothing is at the place of the run in the folder
  -- artifacts/runs, which is there, every path can be written, and the state of the kill switch can
  -- be read. If that state is not `active`, the lifecycle returns the status `completed`; its
  -- journal then holds exactly the start, the check, the paper start, three heartbeats, the paper
  -- completion and the completion, and its metadata have that status too.
  pub run_paper_lifecycle-inactive :
      status.state ≢ "active"
      → Ends lib spec_path runtime_root spec w "completed" (
          "run_started" ∷ "paper_safety_checked" ∷ "paper_started" ∷ "paper_heartbeat"
          ∷ "paper_heartbeat" ∷ "paper_heartbeat" ∷ "paper_completed" ∷ "run_completed" ∷ [])
  run_paper_lifecycle-inactive inactive = Ends-by _ _ λ st snapshot w1 found o.
      rw (ap (λ s. s == "active") found ∙ eq_of_ne status.state "active" inactive)
        (Returns-complete_paper st _ w1 o)
