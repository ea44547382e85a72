-- ===== src/Reconciliation/Effects.antt =====
-- What a reconciliation writes, and what it leaves alone.
use tradingchassis_ops_lab.Base.{
  ℕ, String, false, Option, none, some, ◌∷◌, ◌≡◌, refl, sym, ◌∙◌, strip, List, [], leb,
}
use tradingchassis_ops_lab.Base.Json.{obj, Fields}
use tradingchassis_ops_lab.World.Content.{document}
use tradingchassis_ops_lab.World.Effects.{
  FilePath, same_path, World, Result, ok, raised, file, lift, resolve, datetime_now,
  reconciliation_artifacts,
}
use tradingchassis_ops_lab.World.Frame.{
  Same-refl, Spares, Spares-pure, Spares-raise, Spares-lift, Spares-os_error_as, Spares-if,
  Spares-bind, Spares-is_dir, Spares-is_file, Spares-read_json, Spares-write_text,
  Spares-append_text,
}
use tradingchassis_ops_lab.World.Post.{
  Post, Post-bind, Post-then, Post-pure, Post-raise, Post-if, Post-os_error_as, Post-write_text,
  Post_of_all, Post-use,
}
use tradingchassis_ops_lab.Runs.Artifacts.{append_journal_event}
use tradingchassis_ops_lab.Reconciliation.Standard.{Standard}
use tradingchassis_ops_lab.Reconciliation.Checks.{Check, precedence}
use tradingchassis_ops_lab.Reconciliation.Rollup.{summarize_checks, rollup_status, passes}
use tradingchassis_ops_lab.Reconciliation.Verdict.{passes-rollup_status}
use tradingchassis_ops_lab.Reconciliation.Operation.{
  load_json_object, Reconciled, result_fields, result_path, journal_path, effective_now, announce,
  persist, three, run_checks, reconciled_of, reconcile, run_reconciliation_check,
}

module _ {p : FilePath} where
  Spares-resolve : (q : FilePath) → Spares p (resolve q)
  unfolding resolve
  Spares-resolve q = record { at = λ w. Same-refl p w }

  Spares-datetime_now : Spares p datetime_now
  unfolding datetime_now
  Spares-datetime_now = record {
    at = λ w. record {
      entry_same = refl;
      unreadable_same = refl;
      unwritable_same = refl;
      env_same = refl;
      clock_same = refl;
      uuids_same = refl;
      left_same = refl;
    };
  }

  Spares-effective_now : (now : Option ℕ) → Spares p (effective_now now)
  Spares-effective_now none = Spares-datetime_now
  Spares-effective_now (some n) = Spares-pure n

  Spares-load_json_object : (q : FilePath) → Spares p (load_json_object q)
  unfolding load_json_object
  Spares-load_json_object q = Spares-bind _ _ (Spares-is_file q) λ regular.
      Spares-if regular _ _ (Spares-bind _ _ (Spares-read_json _ q) (λ _. Spares-lift _))
        (Spares-raise _)

  -- Before anything is written, every path is left alone.
  Spares-reconcile :
      (std : Standard) (id : String) (e o : FilePath) (now : Option ℕ)
      → Spares p (reconcile std id e o now)
  unfolding reconcile
  Spares-reconcile std id e o now = Spares-bind _ _ (Spares-load_json_object e) λ _.
      Spares-bind _ _ (Spares-load_json_object o) λ _. Spares-bind _ _ (Spares-lift _) λ _.
        Spares-bind _ _ (Spares-lift _) λ _. Spares-bind _ _ (Spares-lift _) λ _.
          Spares-bind _ _ (Spares-lift _) λ _. Spares-bind _ _ (Spares-effective_now now) λ _.
            Spares-bind _ _ (Spares-lift _) λ _.
              Spares-bind _ _ (Spares-resolve e)
                λ _. Spares-bind _ _ (Spares-resolve o) λ _. Spares-pure _

  Spares-journal :
      (run_dir : FilePath) (f : Fields)
      → same_path p (journal_path run_dir) ≡ false
      → Spares p (append_journal_event (journal_path run_dir) f)
  unfolding append_journal_event
  Spares-journal run_dir f h = Spares-append_text (journal_path run_dir) (obj f) h

  Spares-announce :
      (run_dir : FilePath) (r : Reconciled)
      → same_path p (journal_path run_dir) ≡ false
      → Spares p (announce run_dir r)
  unfolding announce
  Spares-announce run_dir r k = Spares-bind _ _ (Spares-is_file _) λ regular.
      Spares-if regular _ _ (Spares-bind _ _ (Spares-resolve _) (λ _. Spares-journal run_dir _ k))
        (Spares-pure tt)

  Spares-persist :
      (run_dir : FilePath) (r : Reconciled)
      → same_path p (result_path run_dir) ≡ false
      → same_path p (journal_path run_dir) ≡ false
      → Spares p (persist run_dir r)
  unfolding persist
  Spares-persist run_dir r h k =
      Spares-bind _ _ (Spares-os_error_as _ _ (Spares-write_text _ _ h))
        λ _. Spares-announce run_dir r k

  -- A reconciliation, whether it returns or raises, changes no path but the result file and the
  -- journal of its run: neither the payloads nor the metadata nor the state of a kill switch.
  pub run_reconciliation_check-Spares :
      (std : Standard) (run_id : String) (e o artifacts_root : FilePath) (now : Option ℕ)
      → same_path p (result_path (strip run_id ∷ artifacts_root)) ≡ false
      → same_path p (journal_path (strip run_id ∷ artifacts_root)) ≡ false
      → Spares p (run_reconciliation_check std run_id e o artifacts_root now)
  unfolding run_reconciliation_check
  run_reconciliation_check-Spares std run_id e o artifacts_root now h k =
      Spares-bind _ _ (Spares-lift _) λ _. Spares-bind _ _ (Spares-is_dir _) λ there.
        Spares-if there _ _
          (Spares-bind _ _ (Spares-reconcile std (strip run_id) e o now)
            λ r. Spares-bind _ _ (Spares-persist _ r h k) λ _. Spares-pure r)
          (Spares-raise _)

Post-persist :
    (run_dir : FilePath) (r : Reconciled) (w : World)
    → Post
        (persist run_dir r w)
        (λ _ w'. w'.entry (result_path run_dir) ≡ file (document (obj (result_fields r))))
unfolding persist
Post-persist run_dir r w =
    Post-then _ _ w _ _ (Post-os_error_as reconciliation_artifacts _ w _ (Post-write_text _ _ w))
      λ _ w1 written.
        Post_of_all (announce run_dir r w1)
          (λ _ w'. w'.entry (result_path run_dir) ≡ file (document (obj (result_fields r))))
          λ _. ((Spares-announce run_dir r refl).at w1).entry_same ∙ written

-- The verdict of a result is the one of its status.
abbrev pub IsJust : Reconciled → Type 0
IsJust r = r.pass ≡ leb (precedence r.status) 1

three-passes :
    (x y : Result Check) (f : Check) (cs : List Check)
    → three x y f ≡ ok cs
    → passes (summarize_checks cs) ≡ leb (precedence (rollup_status cs)) 1
three-passes (raised e) y f cs h = cc
three-passes (ok a) (raised e) f cs h = cc
three-passes (ok a) (ok b) f cs h = rw (sym (same _ _ h)) (passes-rollup_status a (b ∷ f ∷ []))
  where
    same : (xs ys : List Check) → ok xs ≡ ok ys → xs ≡ ys
    same xs ys e = cc

Post-reconcile :
    (std : Standard) (id : String) (e o : FilePath) (now : Option ℕ) (w : World)
    → Post (reconcile std id e o now w) (λ r _. IsJust r)
unfolding reconcile lift run_checks reconciled_of
Post-reconcile std id e o now w = Post-bind _ _ w _ λ expected _. Post-bind _ _ _ _ λ observed _.
    Post-bind _ _ _ _ λ _ _. Post-bind _ _ _ _ λ _ _. Post-bind _ _ _ _ λ _ _.
      Post-bind _ _ _ _ λ _ _. Post-bind _ _ _ _ λ at _. Post-bind _ _ _ _ λ checks made.
        Post-bind _ _ _ _
          λ _ _. Post-bind _ _ _ _ λ _ _. Post-pure _ _ _ (three-passes _ _ _ checks made)

module _ (std : Standard) (run_id : String) (e o artifacts_root : FilePath) (now : Option ℕ)
    (w : World) where
  Post-run : Post (run_reconciliation_check std run_id e o artifacts_root now w) (λ r w'.
      (w'.entry (result_path (strip run_id ∷ artifacts_root))
        ≡ file (document (obj (result_fields r))))
      × IsJust r)
  unfolding run_reconciliation_check
  Post-run = Post-bind _ _ w _ λ _ _. Post-bind _ _ _ _ λ there _.
      Post-if there _ _ _ _
        (λ _.
          Post-then _ _ _ (λ r _. IsJust r) _ (Post-reconcile std (strip run_id) e o now _)
            λ r w1 verdict.
              Post-then _ _ w1 _ _ (Post-persist _ r w1)
                λ _ w2 written. Post-pure r w2 _ (written, verdict))
        (λ _. Post-raise _ _ _)

  -- A reconciliation that returns has written its result to the result file of the run, and the
  -- result passes exactly when its status is `ok` or `warning`.
  pub run_reconciliation_check-written :
      {r : Reconciled} {w' : World}
      → run_reconciliation_check std run_id e o artifacts_root now w ≡ (ok r, w')
      → (w'.entry (result_path (strip run_id ∷ artifacts_root))
          ≡ file (document (obj (result_fields r))))
        × IsJust r
  run_reconciliation_check-written returned = Post-use _ _ Post-run returned
