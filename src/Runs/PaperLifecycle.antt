-- ===== src/Runs/PaperLifecycle.antt =====
-- The start of a paper lifecycle, in a world in which it can start.
use tradingchassis_ops_lab.Base.{
  ◌+◌, String, some, List, [], ◌∷◌, ◌≡◌, refl, sym, ◌∙◌, is_empty, arith,
}
use tradingchassis_ops_lab.Base.Json.{Json, str, Fields, end, get, put, get-put}
use tradingchassis_ops_lab.World.Effects.{
  FilePath, World, ok, pure, ◌>>=◌, utc_now_iso8601, read_text, read_json, exists, os_error_as,
  lift,
}
use tradingchassis_ops_lab.World.Returns.{
  Returns, Returns-bind, Returns-pure, Returns-if, bind-eq, pair-eq,
}
use tradingchassis_ops_lab.KillSwitch.Status.{get_kill_switch_status-eq}
use tradingchassis_ops_lab.KillSwitch.Payloads.{KillSwitchStatus}
use tradingchassis_ops_lab.KillSwitch.Operations.{
  get_kill_switch_status, build_safety_snapshot, read_state, checked_at_or_now,
}
use tradingchassis_ops_lab.Runs.Spec.{RunSpec}
use tradingchassis_ops_lab.Runs.Artifacts.{
  Libraries, load_run_spec, compute_config_sha256, default_artifacts_root, get_run_artifacts_dir,
  build_initial_metadata,
}
use tradingchassis_ops_lab.Runs.Lifecycle.{session_of}
use tradingchassis_ops_lab.Runs.Opened.{text_in, Open}
use tradingchassis_ops_lab.Runs.Ready.{IsReady, Returns-initialize}
use tradingchassis_ops_lab.Runs.Steps.{
  Returns-utc_now, Returns-resolve, Returns-write_metadata, Returns-log_event,
}
use tradingchassis_ops_lab.Runs.Paper.{start_paper, checked_fields, kill_switch_state, started}

-- Loading a specification and reading the kill switch leave the world as it is.
pub load_run_spec-world :
    (lib : Libraries) (p : FilePath) (w : World) → (load_run_spec lib p w).1 ≡ w
unfolding load_run_spec read_text os_error_as lift ◌>>=◌
load_run_spec-world lib p w = ground arith

pub status-world :
    (run_id : String) (root : FilePath) (w : World) → (get_kill_switch_status run_id root w).1 ≡ w
unfolding get_kill_switch_status read_state read_json read_text exists os_error_as lift pure ◌>>=◌
status-world run_id root w = ground arith

status-running :
    (snapshot metadata : Fields) (outcome at : String) (execution : Json)
    → text_in (put "paper_execution" execution (started snapshot outcome at metadata)) "status"
      ≡ "running"
status-running snapshot metadata outcome at execution =
    rw (get-put "paper_execution" "status" execution _, text_in)
      (rw (get-put "safety" "status" _ _) (
        rw (get-put "is_placeholder" "status" _ _) (
          rw (get-put "lifecycle" "status" _ _) (
            rw (get-put "started_at_utc" "status" _ _)
              (rw (get-put "status" "status" (str "running") metadata) refl)))))

pub Returns-build_initial_metadata :
    (spec : RunSpec) (p d : FilePath) (sha : String) {es : List String} {st : String} (w : World)
    → Open d es st w
    → Returns (build_initial_metadata spec p d sha w) (λ _ w'. Open d es st w')
unfolding build_initial_metadata
Returns-build_initial_metadata spec p d sha w o =
    Returns-bind _ _ w _ _ (Returns-utc_now d w o) λ at w1 o1.
      Returns-bind _ _ w1 _ _ (Returns-resolve d w1 o1 p) λ _ w2 o2.
        Returns-bind _ _ w2 _ _ (Returns-resolve d w2 o2 d) λ _ w3 o3. Returns-pure _ w3 _ o3

module _ (lib : Libraries) (spec_path : FilePath) (spec : RunSpec) where
  pub Returns-start_paper :
      (snapshot : Fields) (w : World)
      → IsReady spec_path spec.run_id w
      → Returns (start_paper lib spec_path spec snapshot w) (λ st w'.
        (st.session.artifacts_dir ≡ get_run_artifacts_dir spec.run_id default_artifacts_root)
        × Open st.session.artifacts_dir ("run_started" ∷ "paper_safety_checked" ∷ []) "running" w')
  unfolding start_paper get
  Returns-start_paper snapshot w r =
      Returns-bind _ _ w _ _ (Returns-initialize spec_path spec w r) λ d w1 b.
        let s = session_of spec (compute_config_sha256 lib spec) d in
        Returns-bind _ _ w1 _ _ (Returns-build_initial_metadata spec spec_path d _ w1 b.1)
          λ m w2 o2. Returns-bind _ _ w2 _ _ (Returns-utc_now d w2 o2) λ at w3 o3.
            Returns-bind _ _ w3 _ _ (Returns-utc_now d w3 o3) λ at' w4 o4.
              Returns-bind _ _ w4 _ _
                (Returns-write_metadata d w4 o4 _ (status-running snapshot m _ at _))
                λ _ w5 o5.
                  Returns-bind _ _ w5 _ _ (Returns-log_event s _ _ end w5 refl o5) λ _ w6 o6.
                    Returns-bind _ _ w6 _ _
                      (Returns-log_event s _ _ (checked_fields (kill_switch_state snapshot)) w6 refl
                        o6)
                      λ _ w7 o7. Returns-pure _ w7 _ (b.0, o7)

-- The world after one more reading of the clock.
abbrev pub ticked : World → World
ticked w = record w { ticks = w.ticks + 1 }

pub IsReady-ticked :
    {p : FilePath} {run_id : String} (w : World) → IsReady p run_id w → IsReady p run_id (ticked w)
IsReady-ticked w r = record {
  writable = r.writable;
  source = r.source;
  spec_there = r.spec_there;
  spec_readable = r.spec_readable;
  artifacts_there = r.artifacts_there;
  root_there = r.root_there;
  fresh = r.fresh;
  fresh_inside = r.fresh_inside;
}

Returns-checked_at :
    (t : String) {p : FilePath} {run_id : String} (w : World)
    → IsReady p run_id w
    → Returns (checked_at_or_now (some t) w) (λ _ w'. IsReady p run_id w')
unfolding utc_now_iso8601 pure
Returns-checked_at t w r = Returns-if (is_empty t) _ _ w _ (λ _. IsReady-ticked w r) (λ _. r)

module _ (run_id : String) (runtime_root : FilePath) (status : KillSwitchStatus) where
  pub status-ticked :
      (w : World)
      → (get_kill_switch_status run_id runtime_root w).0 ≡ ok status
      → get_kill_switch_status run_id runtime_root (ticked w) ≡ (ok status, ticked w)
  status-ticked w switch =
      pair-eq _
        (get_kill_switch_status-eq run_id runtime_root (ticked w)
          ∙ sym (get_kill_switch_status-eq run_id runtime_root w)
          ∙ switch)
        (status-world run_id runtime_root (ticked w))

  pub Returns-snapshot :
      (t : String) {p : FilePath} (w : World)
      → IsReady p run_id w
      → get_kill_switch_status run_id runtime_root w ≡ (ok status, w)
      → Returns
          (build_safety_snapshot run_id runtime_root (some t) w)
          (λ snapshot w'. (kill_switch_state snapshot ≡ status.state) × IsReady p run_id w')
  unfolding build_safety_snapshot kill_switch_state get
  Returns-snapshot t w r switch =
      rw (bind-eq (get_kill_switch_status run_id runtime_root) _ w switch) (
        Returns-bind _ _ w _ _ (Returns-checked_at t w r)
          λ checked_at w1 r1. Returns-pure _ w1 _ (refl, r1))
