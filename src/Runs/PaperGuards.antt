-- ===== src/Runs/PaperGuards.antt =====
-- When a paper lifecycle refuses to start.
use tradingchassis_ops_lab.Base.{
  String, true, false, some, ◌≡◌, ◌≢◌, refl, sym, ◌∙◌, ap, is_empty, if◌then◌else◌, ◌==◌, eq_of_ne,
  Bool, Bool-cases, inl, inr,
}
use tradingchassis_ops_lab.World.Effects.{
  FilePath, Exception, World, ok, raised, Action, is_present, ◌>>=◌, utc_now_iso8601, raise, exists,
  pure, invalid_mode, run_artifacts_exist,
}
use tradingchassis_ops_lab.World.Returns.{bind-eq, pair-eq}
use tradingchassis_ops_lab.KillSwitch.Payloads.{KillSwitchStatus}
use tradingchassis_ops_lab.KillSwitch.Operations.{
  get_kill_switch_status, build_safety_snapshot, snapshot_json, path_text,
}
use tradingchassis_ops_lab.KillSwitch.Status.{get_kill_switch_status-eq}
use tradingchassis_ops_lab.Runs.Spec.{RunSpec}
use tradingchassis_ops_lab.Runs.Artifacts.{
  Libraries, load_run_spec, default_artifacts_root, get_run_artifacts_dir, initialize_run_artifacts,
}
use tradingchassis_ops_lab.Base.Json.{Fields}
use tradingchassis_ops_lab.Runs.Paper.{Outcome, start_paper, run_paper_lifecycle}
use tradingchassis_ops_lab.Runs.PaperLifecycle.{
  load_run_spec-world, status-world, ticked, status-ticked,
}

-- A first action that raises.
bind-raised :
    {A B : Type 0} (m : Action A) (f : A → Action B) (w : World) {e : Exception} {w' : World}
    → m w ≡ (raised e, w')
    → (m >>= f) w ≡ (raised e, w')
unfolding ◌>>=◌
bind-raised m f w h = rw h refl

after_clock :
    {B : Type 0} (f : String → Action B) (w : World)
    → (utc_now_iso8601 >>= f) w ≡ f (w.clock w.ticks) (ticked w)
unfolding utc_now_iso8601
after_clock f w = bind-eq utc_now_iso8601 f w refl

-- A snapshot reads the clock at most once more; the paths stay as they are.
snapshot-world :
    (run_id : String) (root : FilePath) (t : String) (status : KillSwitchStatus) (w : World)
    → get_kill_switch_status run_id root w ≡ (ok status, w)
    → ((build_safety_snapshot run_id root (some t) w).0
        ≡ ok (snapshot_json status (if is_empty t then w.clock w.ticks else t) (path_text root)))
      × ((build_safety_snapshot run_id root (some t) w).1 ≡ (if is_empty t then ticked w else w))
unfolding build_safety_snapshot pure
snapshot-world run_id root t status w switch =
    rw (bind-eq (get_kill_switch_status run_id root) _ w switch) (elim (Bool-cases (is_empty t)) [
      | inl blank ↦ rw blank (rw (after_clock _ w) (refl, refl))
      | inr full ↦ rw full (unfold ◌>>=◌ in (refl, refl))
    ])

module _ (lib : Libraries) (spec_path runtime_root : FilePath) (spec : RunSpec) (w : World)
    (loads : (load_run_spec lib spec_path w).0 ≡ ok spec) where
  after_load :
      {B : Type 0} (f : RunSpec → Action B) → (load_run_spec lib spec_path >>= f) w ≡ f spec w
  after_load f = bind-eq _ f w (pair-eq _ loads (load_run_spec-world lib spec_path w))

  -- A specification of another mode is refused, and the world is left as it was.
  pub run_paper_lifecycle-other_mode :
      spec.mode ≢ "paper"
      → run_paper_lifecycle lib spec_path runtime_root w ≡ (raised invalid_mode, w)
  unfolding run_paper_lifecycle raise
  run_paper_lifecycle-other_mode other = after_load _ ∙ (rw (eq_of_ne spec.mode "paper" other) refl)

  abbrev run_dir : FilePath
  run_dir = get_run_artifacts_dir spec.run_id default_artifacts_root

  module _ (paper : spec.mode ≡ "paper") where
    -- The state of the kill switch cannot be read: the lifecycle raises the exception of the
    -- reading. Only the clock was read by then: no file was written.
    pub run_paper_lifecycle-unreadable_switch :
        (e : Exception)
        → (get_kill_switch_status spec.run_id runtime_root w).0 ≡ raised e
        → run_paper_lifecycle lib spec_path runtime_root w ≡ (raised e, ticked w)
    unfolding run_paper_lifecycle build_safety_snapshot
    run_paper_lifecycle-unreadable_switch e failed =
        after_load _
        ∙ (rw (ap (λ m. m == "paper") paper) (
            after_clock _ w
            ∙ bind-raised _ _ (ticked w) (
                bind-raised _ _ (ticked w) (
                  pair-eq _
                    (get_kill_switch_status-eq spec.run_id runtime_root (ticked w)
                      ∙ sym (get_kill_switch_status-eq spec.run_id runtime_root w)
                      ∙ failed)
                    (status-world spec.run_id runtime_root (ticked w))))))

    start_paper-existing :
        (snapshot : Fields) (v : World)
        → is_present (v.entry (get_run_artifacts_dir spec.run_id default_artifacts_root)) ≡ true
        → start_paper lib spec_path spec snapshot v ≡ (raised run_artifacts_exist, v)
    unfolding start_paper initialize_run_artifacts exists raise ◌>>=◌
    start_paper-existing snapshot v there = rw there refl

    -- A block that goes on to refuse after the snapshot.
    refused_after_snapshot :
        (status : KillSwitchStatus) (f : Fields → Action Outcome)
        → get_kill_switch_status spec.run_id runtime_root (ticked w) ≡ (ok status, ticked w)
        → ((snapshot : Fields) (v : World)
            → v.entry ≡ w.entry
            → f snapshot v ≡ (raised run_artifacts_exist, v))
        → let x =
            (build_safety_snapshot spec.run_id runtime_root (some (w.clock w.ticks)) >>= f)
              (ticked w) in
          (x.0 ≡ raised run_artifacts_exist) × (x.1.entry ≡ w.entry)
    refused_after_snapshot status f found k =
        let b = snapshot-world spec.run_id runtime_root (w.clock w.ticks) status (ticked w) found in
        let kept = entry-if (is_empty (w.clock w.ticks)) in
        rw (bind-eq _ f (ticked w) (pair-eq _ b.0 b.1)) (
          rw (k _ (if is_empty (w.clock w.ticks) then ticked (ticked w) else ticked w) kept)
            (refl, kept))
      where
        entry-if : (b : Bool) → (if b then ticked (ticked w) else ticked w).entry ≡ w.entry
        entry-if true = refl
        entry-if false = refl

    -- The run has a directory: the lifecycle raises `RunArtifactsAlreadyExistError`, and no path
    -- of the world is changed.
    pub run_paper_lifecycle-existing_run :
        (status : KillSwitchStatus)
        → (get_kill_switch_status spec.run_id runtime_root w).0 ≡ ok status
        → is_present (w.entry (get_run_artifacts_dir spec.run_id default_artifacts_root)) ≡ true
        → ((run_paper_lifecycle lib spec_path runtime_root w).0 ≡ raised run_artifacts_exist)
          × ((run_paper_lifecycle lib spec_path runtime_root w).1.entry ≡ w.entry)
    unfolding run_paper_lifecycle
    run_paper_lifecycle-existing_run status found there = rw (after_load _) (
        rw (ap (λ m. m == "paper") paper) (
          rw (after_clock _ w) (
            refused_after_snapshot status _ (status-ticked spec.run_id runtime_root status w found)
              (λ snapshot v kept. bind-raised _ _ v (
                start_paper-existing snapshot v (ap (λ e. is_present (e run_dir)) kept ∙ there))))))
