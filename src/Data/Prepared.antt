-- ===== src/Data/Prepared.antt =====
-- What a prepared dataset holds.
use mathlib.Core.Path.{subst}
use tradingchassis_ops_lab.Base.{
  eq_iff, arith, String, Bool, true, false, [], ◌∷◌, ◌≡◌, refl, sym, if◌then◌else◌, eq_iff, arith,
  Bool-cases, inl, inr,
}
use tradingchassis_ops_lab.World.Content.{Content}
use tradingchassis_ops_lab.World.Effects.{
  FilePath, same_path, Entry, absent, dir, file, World, ok, copy2, write_text, can_write, set_entry,
  lift,
}
use tradingchassis_ops_lab.World.Frame.{same_path_self}
use tradingchassis_ops_lab.World.Post.{Post, Post-bind, Post-then, Post-if, Post-raise, Post-pure}
use tradingchassis_ops_lab.Engine.Smoke.{candles_path}
use tradingchassis_ops_lab.Data.Prepare.{
  prepare_dataset, copy_files, dataset_files, dataset_dir, resolve_fixture_dir, supported_dataset,
}

-- Both paths hold one content.
abbrev pub Copied : FilePath → FilePath → World → Type 0
Copied p q w = (c : Content) × ((w.entry p ≡ file c) × (w.entry q ≡ file c))

Copied-set_entry :
    (p q : FilePath) (c : Content) (w : World)
    → w.entry p ≡ file c
    → Copied p q (set_entry q (file c) w)
Copied-set_entry p q c w h = (c, (at_source (same_path p q), rw (same_path_self q) refl))
  where
    at_source : (b : Bool) → (if b then file c else w.entry p) ≡ file c
    at_source true = refl
    at_source false = h

Post-write :
    (p q : FilePath) (c : Content) (w : World)
    → w.entry p ≡ file c
    → Post (write_text q c w) (λ _ w'. Copied p q w')
unfolding write_text
Post-write p q c w h = elim (Bool-cases (can_write w q)) [
  | inl open_for_writing ↦ rw open_for_writing (Copied-set_entry p q c w h)
  | inr shut ↦ rw shut tt
]

Post-copy2-at :
    (p q : FilePath) (w : World) (e : Entry)
    → w.entry p ≡ e
    → w.unreadable p ≡ false
    → Post (copy2 p q w) (λ _ w'. Copied p q w')
unfolding copy2
Post-copy2-at p q w absent h readable = rw readable (rw (h, copy2) tt)
Post-copy2-at p q w dir h readable = rw readable (rw (h, copy2) tt)
Post-copy2-at p q w (file c) h readable = rw readable (rw (h, copy2) (Post-write p q c w h))

Post-copy2 : (p q : FilePath) (w : World) → Post (copy2 p q w) (λ _ w'. Copied p q w')
unfolding copy2
Post-copy2 p q w = elim (Bool-cases (w.unreadable p)) [
  | inl unreadable ↦ rw unreadable tt
  | inr readable ↦ Post-copy2-at p q w (w.entry p) refl readable
]

Post-copy_files :
    (source target : FilePath) (w : World)
    → Post
        (copy_files source target [] dataset_files w)
        (λ _ w'. Copied ("candles_1m.csv" ∷ source) ("candles_1m.csv" ∷ target) w')
unfolding copy_files
Post-copy_files source target w = Post-bind _ _ w _ λ regular _.
    Post-if regular _ _ _ _
      (λ _. Post-then _ _ _ _ _ (Post-copy2 _ _ _) λ _ w' c. Post-pure _ w' _ c)
      (λ _. Post-raise _ _ _)

resolved :
    (fixtures_root : FilePath) (dataset : String) {source : FilePath}
    → resolve_fixture_dir fixtures_root dataset ≡ ok source
    → (dataset ≡ supported_dataset) × ((dataset ∷ fixtures_root) ≡ source)
unfolding resolve_fixture_dir
resolved fixtures_root dataset h = ground (arith, eq_iff dataset supported_dataset)

-- A preparation that returns was one of the supported dataset; the fixture file is then there, and
-- the file from which the engine loads its candles holds the same content.
pub prepare_dataset-Copied :
    (fixtures_root data_root : FilePath) (dataset : String) (w : World)
    → Post (prepare_dataset fixtures_root dataset data_root w) (λ d w'.
      (dataset ≡ supported_dataset)
      × (d.target_dir ≡ dataset_dir data_root dataset)
      × Copied ("candles_1m.csv" ∷ dataset ∷ fixtures_root) (candles_path data_root dataset) w')
unfolding prepare_dataset lift
prepare_dataset-Copied fixtures_root data_root dataset w = Post-bind _ _ w _ λ source found.
    Post-bind _ _ _ _ λ there _.
      Post-if there _ _ _ _
        (λ _. Post-bind _ _ _ _ λ _ _.
          Post-then _ _ _ _ _ (Post-copy_files source _ _) λ copied w' c.
            let r = resolved fixtures_root dataset found in
            Post-pure _ w' _ (
              r.0,
              refl,
              subst (λ d. Copied ("candles_1m.csv" ∷ d) (candles_path data_root dataset) w')
                  (sym r.1) c,
            ))
        (λ _. Post-raise _ _ _)
