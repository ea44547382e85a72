-- ===== src/KillSwitch/Snapshot.antt =====
-- The safety snapshot that `update_artifact_metadata_safety_snapshot` puts into run metadata.
use tradingchassis_ops_lab.Base.{
  String, true, false, ◌≡◌, ◌≢◌, refl, sym, ap, ◌∙◌, Option, some, none, strip, eq_of_ne, arith,
}
use tradingchassis_ops_lab.Base.Json.{Json, obj, Fields, get, put, get-put}
use tradingchassis_ops_lab.World.Content.{document, loads}
use tradingchassis_ops_lab.World.Effects.{
  FilePath, World, is_dir, exists, is_file, ok, file, Entry, ◌>>=◌, lift, read_json, read_text,
  kill_switch_read,
}
use tradingchassis_ops_lab.World.Post.{
  Post, Post-bind, Post-then, Post-use, Post-os_error_as, Post-write_text, Post-pure, Post-raise,
  Post-if,
}
use tradingchassis_ops_lab.KillSwitch.Payloads.{KillSwitchStatus, artifact_metadata_path}
use tradingchassis_ops_lab.KillSwitch.Operations.{
  validate_run_id, get_kill_switch_status, build_safety_snapshot,
  update_artifact_metadata_safety_snapshot, snapshot_json, path_text, as_object,
}
use tradingchassis_ops_lab.KillSwitch.Status.{
  eq_strip_of_validate_run_id, get_kill_switch_status-strip,
}

-- The JSON object that a file holds.
abbrev pub object_at : Entry → Option Fields
object_at (file c) = elim (loads c) [ some (obj fs) ↦ some fs | _ ↦ none ]
object_at _ = none

object_at-document : (fs : Fields) → object_at (file (document (obj fs))) ≡ some fs
unfolding loads
object_at-document fs = refl

-- What a read of a JSON object says of the file.
object_at_of_read_json :
    (q : FilePath) (w : World) (v : Json) (fs : Fields)
    → (read_json kill_switch_read q w).0 ≡ ok v
    → as_object v ≡ ok fs
    → object_at (w.entry q) ≡ some fs
unfolding read_json read_text ◌>>=◌
object_at_of_read_json q w v fs h k = ground arith

read_json-world : (q : FilePath) (w : World) → (read_json kill_switch_read q w).1 ≡ w
unfolding read_json read_text ◌>>=◌
read_json-world q w = ground arith

Post-build :
    (id : String) (root : FilePath) (checked : Option String) (w : World)
    → Post (build_safety_snapshot id root checked w) (λ safety _.
      (status : KillSwitchStatus) × (t : String) × ((get_kill_switch_status id root w).0
        ≡ ok status)
      × (safety ≡ snapshot_json status t (path_text root)))
unfolding build_safety_snapshot
Post-build id root checked w =
    Post-bind _ _ w _
      λ status read. Post-bind _ _ _ _ λ t _. Post-pure _ _ _ (status, t, read, refl)

snapshot-no_outcome :
    (status : KillSwitchStatus) (t source : String)
    → get (snapshot_json status t source) "lifecycle_outcome" ≡ none
unfolding get
snapshot-no_outcome status t source = refl

module _ (run_id : String) (root artifacts : FilePath) (checked : Option String) where
  abbrev metadata_at : FilePath
  metadata_at = artifact_metadata_path artifacts (strip run_id)

  -- The metadata after an update: a new safety snapshot, and all else as before.
  record Updated (w w' : World) : Type 0 where
    old : Fields
    status : KillSwitchStatus
    checked_at : String
    read : object_at (w.entry metadata_at) ≡ some old
    status_now : (get_kill_switch_status run_id root w).0 ≡ ok status
    written :
        w'.entry metadata_at
        ≡ file (
            document
              (obj (put "safety" (obj (snapshot_json status checked_at (path_text root))) old)))

  Updated-of :
      (id : String) (payload : Json) (old safety : Fields) (status : KillSwitchStatus) (t : String)
      (w w' : World)
      → validate_run_id run_id ≡ ok id
      → (read_json kill_switch_read (artifact_metadata_path artifacts id) w).0 ≡ ok payload
      → as_object payload ≡ ok old
      → (get_kill_switch_status id root
          (read_json kill_switch_read (artifact_metadata_path artifacts id) w).1).0
        ≡ ok status
      → safety ≡ snapshot_json status t (path_text root)
      → w'.entry (artifact_metadata_path artifacts id)
        ≡ file (document (obj (put "safety" (obj safety) old)))
      → Updated w w'
  Updated-of id payload old safety status t w w' named loaded is_object now built wrote =
      let e : strip run_id ≡ id = sym (eq_strip_of_validate_run_id run_id id named) in
      record {
        old = old;
        status = status;
        checked_at = t;
        read = rw e (object_at_of_read_json _ w payload old loaded is_object);
        status_now =
            sym (get_kill_switch_status-strip run_id root w)
            ∙ rw e (rw (← read_json-world (artifact_metadata_path artifacts id) w) now);
        written = rw e (rw (← built) wrote);
      }

  replaced :
      (w w' : World)
      → Updated w w'
      → (old new : Fields) × (status : KillSwitchStatus) × (t : String) × (object_at
            (w.entry metadata_at)
          ≡ some old)
        × (object_at (w'.entry metadata_at) ≡ some new)
        × ((get_kill_switch_status run_id root w).0 ≡ ok status)
        × (get new "safety" ≡ some (obj (snapshot_json status t (path_text root))))
        × (get (snapshot_json status t (path_text root)) "lifecycle_outcome" ≡ none)
        × ((k : String) → k ≢ "safety" → get new k ≡ get old k)
  replaced w w' u =
      let safety = snapshot_json u.status u.checked_at (path_text root) in
      (
        u.old,
        put "safety" (obj safety) u.old,
        u.status,
        u.checked_at,
        u.read,
        ap object_at u.written ∙ object_at-document _,
        u.status_now,
        get-put "safety" "safety" (obj safety) u.old,
        snapshot-no_outcome u.status u.checked_at (path_text root),
        λ k ne. get-put "safety" k (obj safety) u.old ∙ rw (eq_of_ne k "safety" ne),
      )

  Post-update :
      (w : World)
      → Post
          (update_artifact_metadata_safety_snapshot run_id root artifacts checked w)
          (λ updated w'. updated ≡ true → Updated w w')
  unfolding update_artifact_metadata_safety_snapshot lift is_dir exists is_file
  Post-update w = Post-bind _ _ w _ λ id named. Post-bind _ _ w _ λ has_run_dir _.
      Post-if has_run_dir _ _ w _
        (λ _. Post-bind _ _ w _ λ there _.
          Post-if there _ _ w _
            (λ _. Post-bind _ _ w _ λ regular _.
              Post-if regular _ _ w _
                (λ _. Post-bind _ _ w _ λ payload loaded. Post-bind _ _ _ _ λ metadata is_object.
                  Post-then _ _ _ _ _ (Post-build id root checked _) λ safety w2 built.
                    Post-then _ _ _ _ _ (Post-os_error_as _ _ _ _ (Post-write_text _ _ w2))
                      λ _ w3 wrote.
                        let (status, t, now, is_snapshot) = built in
                        Post-pure true w3 _ (λ _.
                          Updated-of id payload metadata safety status t w w3 named loaded is_object
                            now is_snapshot wrote))
                (λ _. Post-raise _ w _))
            (λ _. Post-pure false w _ (λ e. cc)))
        (λ _. Post-pure false w _ (λ e. cc))

  -- An update that returns `true` has replaced the key `safety` of the metadata by a snapshot of
  -- the present status of the run, and kept every other key. The snapshot has no
  -- `lifecycle_outcome`, so what a lifecycle had recorded under that key is gone.
  pub update_replaces_safety :
      (w w' : World)
      → update_artifact_metadata_safety_snapshot run_id root artifacts checked w ≡ (ok true, w')
      → (old new : Fields) × (status : KillSwitchStatus) × (t : String) × (object_at
            (w.entry metadata_at)
          ≡ some old)
        × (object_at (w'.entry metadata_at) ≡ some new)
        × ((get_kill_switch_status run_id root w).0 ≡ ok status)
        × (get new "safety" ≡ some (obj (snapshot_json status t (path_text root))))
        × (get (snapshot_json status t (path_text root)) "lifecycle_outcome" ≡ none)
        × ((k : String) → k ≢ "safety" → get new k ≡ get old k)
  update_replaces_safety w w' returned = replaced w w' (Post-use _ _ (Post-update w) returned refl)
