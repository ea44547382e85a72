-- ===== src/Runs/Ready.antt =====
-- A world in which a run can start, and the run directory that is made in it.
use tradingchassis_ops_lab.Base.{
  String, true, false, [], ◌∷◌, ◌≡◌, refl, sym, ap, ◌∙◌, eq_iff, arith, Bool-cases, inl, inr,
}
use tradingchassis_ops_lab.World.Content.{Content}
use tradingchassis_ops_lab.World.Effects.{
  FilePath, same_path, absent, dir, file, is_dir_entry, can_write, World, ok, set_entry, ◌>>=◌,
  pure, exists, mkdir, make_dir, make_dirs, copy2, write_text,
}
use tradingchassis_ops_lab.World.Frame.{same_path_self, same_path_longer}
use tradingchassis_ops_lab.World.Returns.{Returns}
use tradingchassis_ops_lab.Runs.Spec.{RunSpec}
use tradingchassis_ops_lab.Runs.Artifacts.{
  default_artifacts_root, get_run_artifacts_dir, initialize_run_artifacts,
}
use tradingchassis_ops_lab.Runs.Opened.{
  Open, can_write-Open, same_path_inside, event_names, metadata_status,
}

-- Every path can be written, the specification can be read, the folder artifacts/runs is there, and
-- nothing is at the run's place in it.
pub record IsReady (spec_path : FilePath) (run_id : String) (w : World) : Type 0 where
  pub writable : (p : FilePath) → w.unwritable p ≡ false
  pub source : Content
  pub spec_there : w.entry spec_path ≡ file source
  pub spec_readable : w.unreadable spec_path ≡ false
  pub artifacts_there : w.entry ("artifacts" ∷ []) ≡ dir
  pub root_there : w.entry default_artifacts_root ≡ dir
  pub fresh : w.entry (run_id ∷ default_artifacts_root) ≡ absent
  pub fresh_inside : (s : String) → w.entry (s ∷ run_id ∷ default_artifacts_root) ≡ absent

eq_of_same_path : (p q : FilePath) → same_path p q ≡ true → p ≡ q
eq_of_same_path [] [] h = refl
eq_of_same_path [] (_ ∷ _) h = cc
eq_of_same_path (_ ∷ _) [] h = cc
eq_of_same_path (s ∷ p) (t ∷ q) h = ground (arith, eq_iff s t, eq_of_same_path p q)

entry-unequal :
    (p q : FilePath) (w : World) {c : Content}
    → w.entry p ≡ file c
    → w.entry q ≡ absent
    → same_path p q ≡ false
entry-unequal p q w hp hq = elim (Bool-cases (same_path p q)) [
  | inl same ↦ absurd (file-ne-absent (sym hp ∙ ap w.entry (eq_of_same_path p q same) ∙ hq))
  | inr apart ↦ apart
]
  where
    file-ne-absent : {c : Content} → file c ≡ absent → ⊥
    file-ne-absent h = cc

copy2-eq :
    (p : FilePath) (s : String) (q : FilePath) (w : World) {c : Content}
    → w.unreadable p ≡ false
    → w.entry p ≡ file c
    → can_write w (s ∷ q) ≡ true
    → copy2 p (s ∷ q) w ≡ (ok tt, set_entry (s ∷ q) (file c) w)
unfolding copy2 write_text
copy2-eq p s q w h there open_for_writing = rw h (rw there (rw open_for_writing refl))

make_dir-there :
    (s : String) (p : FilePath) (w : World)
    → w.entry (s ∷ p) ≡ dir
    → make_dir (s ∷ p) w ≡ (ok tt, w)
unfolding make_dir
make_dir-there s p w h = rw (h, make_dir) refl

module _ (spec_path : FilePath) (spec : RunSpec) (w : World)
    (r : IsReady spec_path spec.run_id w) where
  abbrev run_dir : FilePath
  run_dir = get_run_artifacts_dir spec.run_id default_artifacts_root

  abbrev made : World
  made = set_entry run_dir dir w

  abbrev filled : World
  filled = set_entry ("run_spec.yaml" ∷ run_dir) (file r.source) made

  make_dirs-there : make_dirs default_artifacts_root w ≡ (ok tt, w)
  unfolding make_dirs ◌>>=◌
  make_dirs-there =
      rw (make_dir-there _ _ w r.artifacts_there) (rw (make_dir-there _ _ w r.root_there) refl)

  -- A file in the new folder, which nothing has been written to yet.
  made-inside : (s : String) → made.entry (s ∷ run_dir) ≡ absent
  made-inside s = rw (same_path_longer (s ∷ run_dir) run_dir (omega arith)) (r.fresh_inside s)

  copy2-filled : copy2 spec_path ("run_spec.yaml" ∷ run_dir) made ≡ (ok tt, filled)
  copy2-filled =
      copy2-eq spec_path "run_spec.yaml" run_dir made r.spec_readable
        (rw (entry-unequal spec_path run_dir w r.spec_there r.fresh) r.spec_there)
        (can_write-Open run_dir "run_spec.yaml" made (r.writable _)
          (rw (same_path_self run_dir) refl) (ap is_dir_entry (made-inside "run_spec.yaml")))

  Open-filled : Open run_dir [] "" filled
  Open-filled = record {
    writable = r.writable;
    is_there = rw (same_path_inside "run_spec.yaml" run_dir) (rw (same_path_self run_dir) refl);
    logged = ap event_names (made-inside "journal.jsonl");
    recorded = ap metadata_status (made-inside "metadata.json");
    journal_free = ap is_dir_entry (made-inside "journal.jsonl");
    metadata_free = ap is_dir_entry (made-inside "metadata.json");
    metrics_free = ap is_dir_entry (made-inside "metrics.json");
    report_free = ap is_dir_entry (made-inside "report.md");
  }

  pub Returns-initialize :
      Returns
        (initialize_run_artifacts spec_path spec default_artifacts_root w)
        (λ d w'. (d ≡ run_dir) × Open d [] "" w')
  unfolding initialize_run_artifacts exists ◌>>=◌ mkdir pure
  Returns-initialize = rw r.fresh (
      rw make_dirs-there
        (rw r.fresh (rw r.root_there (rw (r.writable _) (rw copy2-filled (refl, Open-filled))))))
