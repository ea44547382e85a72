-- ===== src/Drills/Report.antt =====
-- The report of a restart rehearsal against the directory that it inspected.
use tradingchassis_ops_lab.Base.{
  String, Bool, true, false, ◌&&◌, List, [], ◌∷◌, ◌≡◌, refl, strip, is_empty,
}
use tradingchassis_ops_lab.World.Effects.{
  FilePath, World, dir, is_file_entry, is_dir_entry, ok, ◌>>=◌, is_dir, is_file, pure, lift,
}
use tradingchassis_ops_lab.World.Post.{Post, Post-bind, Post-pure, Post-use}
use tradingchassis_ops_lab.World.Returns.{bind-eq}
use tradingchassis_ops_lab.Reconciliation.Checks.{Check}
use tradingchassis_ops_lab.Drills.Rehearsal.{
  RestartReport, Presence, validate_drill_run_id, inspect, required_artifacts, report_of,
  ensure_run_dir, execute_restart_recovery_drill,
}

-- The first check of a report.
abbrev pub first_matched : List Check → Bool
first_matched [] = false
first_matched (c ∷ cs) = c.matched

-- What the drill sees of a directory.
abbrev pub seen : FilePath → World → Presence
seen run_dir w = record {
  run_dir_exists = is_dir_entry (w.entry run_dir);
  metadata_present = is_file_entry (w.entry ("metadata.json" ∷ run_dir));
  run_spec_present = is_file_entry (w.entry ("run_spec.yaml" ∷ run_dir));
  journal_present = is_file_entry (w.entry ("journal.jsonl" ∷ run_dir));
  metrics_present = is_file_entry (w.entry ("metrics.json" ∷ run_dir));
}

validate-named :
    (run_id : String) (w : World)
    → is_empty (strip run_id) ≡ false
    → lift (validate_drill_run_id run_id) w ≡ (ok (strip run_id), w)
unfolding lift validate_drill_run_id
validate-named run_id w h = rw h refl

ensure-there :
    (id : String) (root : FilePath) (w : World)
    → w.entry (id ∷ root) ≡ dir
    → ensure_run_dir id root w ≡ (ok (id ∷ root), w)
unfolding ensure_run_dir is_dir pure ◌>>=◌
ensure-there id root w h = rw h refl

inspect-seen : (run_dir : FilePath) (w : World) → inspect run_dir w ≡ (ok (seen run_dir w), w)
unfolding inspect is_dir is_file pure ◌>>=◌
inspect-seen run_dir w = refl

module _ (run_id : String) (artifacts_root : FilePath) (w : World)
    (named : is_empty (strip run_id) ≡ false)
    (there : w.entry (strip run_id ∷ artifacts_root) ≡ dir) where
  abbrev run_dir : FilePath
  run_dir = strip run_id ∷ artifacts_root

  Post-drill : Post (execute_restart_recovery_drill run_id artifacts_root w) (λ r _.
      (r.0.pass ≡ true)
      × (first_matched r.0.checks ≡ (
          is_file_entry (w.entry ("metadata.json" ∷ run_dir))
          && is_file_entry (w.entry ("run_spec.yaml" ∷ run_dir)))))
  unfolding execute_restart_recovery_drill report_of required_artifacts
  Post-drill = rw (bind-eq _ _ w (validate-named run_id w named)) (
      rw (bind-eq _ _ w (ensure-there (strip run_id) artifacts_root w there)) (
        rw (bind-eq _ _ w (inspect-seen run_dir w)) (
          Post-bind _ _ w _ λ ts _.
            Post-bind _ _ _ _ λ d _.
              Post-bind _ _ _ _ λ _ _. Post-bind _ _ _ _ λ _ _. Post-pure _ _ _ (refl, refl))))

  -- The restart rehearsal of a run that has a directory: a report that it returns passes in any case,
  -- while its first check is matched only if both the metadata and the copy of the specification are
  -- files in the directory.
  pub execute_restart_recovery_drill-pass :
      {report : RestartReport} {path : FilePath} {w' : World}
      → execute_restart_recovery_drill run_id artifacts_root w ≡ (ok (report, path), w')
      → (report.pass ≡ true)
        × (first_matched report.checks ≡ (
            is_file_entry (w.entry ("metadata.json" ∷ run_dir))
            && is_file_entry (w.entry ("run_spec.yaml" ∷ run_dir))))
  execute_restart_recovery_drill-pass returned = Post-use _ _ Post-drill returned
