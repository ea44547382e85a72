-- ===== src/Connectivity/Files.antt =====
-- What connectivity writes to metadata.json and report.md.
use tradingchassis_ops_lab.Base.{
  String, Bool, true, false, Option, none, some, ◌≡◌, refl, sym, ◌∙◌, ap, ◌==◌, arith, eq_self, ◌∷◌,
}
use tradingchassis_ops_lab.Base.Search.{occurs}
use tradingchassis_ops_lab.Base.Json.{obj, Fields, get, put, get-put}
use tradingchassis_ops_lab.World.Content.{Content, document, text, loads}
use tradingchassis_ops_lab.World.Effects.{
  FilePath, Exception, Entry, dir, file, World, ok, ◌>>=◌, lift, read_json, read_text, os_error_as,
  write_text, set_entry, exists, is_file, pure,
}
use tradingchassis_ops_lab.World.Frame.{same_path_self}
use tradingchassis_ops_lab.World.Post.{Post, Post-bind, Post-os_error_as, Post-write_text, Post-map}
use tradingchassis_ops_lab.World.Returns.{bind-eq}
use tradingchassis_ops_lab.Runs.Opened.{same_path_inside, can_write-Open}
use tradingchassis_ops_lab.Connectivity.Sections.{Markers, section_of, with_section}
use tradingchassis_ops_lab.Connectivity.Replaced.{IsMarked, with_section_again}
use tradingchassis_ops_lab.Connectivity.Readiness.{
  Readiness, readiness_summary, update_connectivity_readiness_metadata_summary,
  patch_connectivity_readiness_section, readiness_body, readiness_markers,
}
use tradingchassis_ops_lab.Connectivity.Probe.{
  probe_summary, update_connectivity_probe_metadata_summary,
}
use tradingchassis_ops_lab.Connectivity.Artifacts.{
  read_json_object, update_summary, write_payload, patch_section,
}

-- The object that a JSON file holds.
abbrev pub object_in : Entry → Option Fields
object_in (file c) = elim (loads c) [ some (obj fs) ↦ some fs | _ ↦ none ]
object_in _ = none

read_json_object-object_in :
    (e : Exception) (p : FilePath) (w : World) {fs : Fields}
    → (read_json_object e p w).0 ≡ ok fs
    → object_in (w.entry p) ≡ some fs
unfolding read_json_object read_json read_text os_error_as lift ◌>>=◌ loads
read_json_object-object_in e p w h = ground arith

-- The file held an object before, and holds the same one with one key set.
pub record Summarised (path : FilePath) (key : String) (summary : Fields) (w w' : World)
    : Type 0 where
  pub before : Fields
  pub was : object_in (w.entry path) ≡ some before
  pub after : Fields
  pub now : object_in (w'.entry path) ≡ some after
  pub summary_there : get after key ≡ some (obj summary)
  pub others_kept : (k : String) → (k == key) ≡ false → get after k ≡ get before k

pub update_summary-Summarised :
    (e : Exception) (path : FilePath) (key : String) (summary : Fields) (w : World)
    → Post (update_summary e path key summary w) (λ _ w'. Summarised path key summary w w')
unfolding update_summary write_payload loads
update_summary-Summarised e path key summary w = Post-bind _ _ w _ λ metadata found.
    Post-os_error_as e _ _ _ (
      Post-map _ _ (λ _ w'. Summarised path key summary w w')
        (Post-write_text path (document (obj (put key (obj summary) metadata))) _)
        λ _ w' written. record {
          before = metadata;
          was = read_json_object-object_in e path w found;
          after = put key (obj summary) metadata;
          now = ap object_in written;
          summary_there = get-put key key (obj summary) metadata ∙ (rw (eq_self key) refl);
          others_kept = λ k other. get-put key k (obj summary) metadata ∙ (rw other refl);
        })

-- An update of the summary of the readiness or of the probe that returns found an object in the
-- metadata file and leaves one there, whose value at the own key is the summary, and at every other
-- key what it was.
pub update_summaries-Summarised :
    (path : FilePath) (state : String) (enabled : Bool) (w : World)
    → Post
        (update_connectivity_readiness_metadata_summary path state enabled w)
        (λ _ w'. Summarised path "connectivity_readiness" (readiness_summary state enabled) w w')
      × Post
          (update_connectivity_probe_metadata_summary path state w)
          (λ _ w'. Summarised path "connectivity_probe" (probe_summary state) w w')
unfolding update_connectivity_readiness_metadata_summary update_connectivity_probe_metadata_summary
update_summaries-Summarised path state enabled w =
    (update_summary-Summarised _ path _ _ w, update_summary-Summarised _ path _ _ w)

-- A report that can be read and written.
pub record IsReport (name : String) (folder : FilePath) (s : String) (w : World) : Type 0 where
  pub is_text : w.entry (name ∷ folder) ≡ file (text s)
  pub readable : w.unreadable (name ∷ folder) ≡ false
  pub writable : w.unwritable (name ∷ folder) ≡ false
  pub folder_there : w.entry folder ≡ dir

entry-set_entry : (p : FilePath) (e : Entry) (w : World) → (set_entry p e w).entry p ≡ e
entry-set_entry p e w = rw (same_path_self p) refl

module _ {name : String} {folder : FilePath} {s : String} where
  exists-report : (w : World) → IsReport name folder s w → exists (name ∷ folder) w ≡ (ok true, w)
  unfolding exists
  exists-report w r = rw r.is_text refl

  is_file-report : (w : World) → IsReport name folder s w → is_file (name ∷ folder) w ≡ (ok true, w)
  unfolding is_file
  is_file-report w r = rw r.is_text refl

  read-report :
      (e : Exception) (w : World)
      → IsReport name folder s w
      → os_error_as e (read_text (name ∷ folder)) w ≡ (ok (text s), w)
  unfolding os_error_as read_text
  read-report e w r = rw r.readable (rw r.is_text refl)

  write-report :
      (e : Exception) (w : World)
      → IsReport name folder s w
      → (c : Content)
      → os_error_as e (write_text (name ∷ folder) c) w
        ≡ (ok tt, set_entry (name ∷ folder) (file c) w)
  unfolding os_error_as write_text
  write-report e w r c =
      rw (can_write-Open folder name w r.writable r.folder_there (rw r.is_text refl)) refl

module _ (e : Exception) (dumps : Content → String) (m : Markers) (name : String)
    (folder : FilePath) where
  abbrev path : FilePath
  path = name ∷ folder

  patch_section-eq :
      (s body : String) (w : World)
      → IsReport name folder s w
      → patch_section e dumps m path body w
        ≡ (ok true, set_entry path (file (text (with_section m s (section_of m body)))) w)
  unfolding patch_section pure
  patch_section-eq s body w r =
      bind-eq _ _ w (exists-report w r)
      ∙ bind-eq _ _ w (is_file-report w r)
      ∙ bind-eq _ _ w (read-report e w r)
      ∙ bind-eq _ _ w (write-report e w r _)

  IsReport-set_entry :
      (s t : String) (w : World)
      → IsReport name folder s w
      → IsReport name folder t (set_entry path (file (text t)) w)
  IsReport-set_entry s t w r = record {
    is_text = rw (same_path_self (name ∷ folder)) refl;
    readable = r.readable;
    writable = r.writable;
    folder_there = rw (same_path_inside name folder) r.folder_there;
  }

  -- Writing two sections one after the other leaves the report that the second one alone leaves.
  patch_section-again :
      (s body body' : String) (w : World)
      → IsReport name folder s w
      → with_section m (with_section m s (section_of m body)) (section_of m body')
        ≡ with_section m s (section_of m body')
      → (patch_section e dumps m path body' (patch_section e dumps m path body w).1).1.entry path
        ≡ (patch_section e dumps m path body' w).1.entry path
  patch_section-again s body body' w r h =
      let t = with_section m s (section_of m body) in
      ap (λ x. (patch_section e dumps m path body' x.1).1.entry path) (patch_section-eq s body w r)
      ∙ ap (λ x. x.1.entry path) (patch_section-eq t body' _ (IsReport-set_entry s t w r))
      ∙ entry-set_entry path _ (set_entry path (file (text t)) w)
      ∙ ap (λ u. file (text u)) h
      ∙ sym (entry-set_entry path _ w)
      ∙ sym (ap (λ x. x.1.entry path) (patch_section-eq s body' w r))

readiness_markers-IsMarked : IsMarked readiness_markers
unfolding occurs
readiness_markers-IsMarked = record { start_word = refl; stop_word = refl; stop_apart = refl }

-- The report of the run is a text file that can be read and written, and it has no marker of the
-- readiness section; the body of the first section has no end marker. Writing the sections of two
-- evaluations one after the other then leaves the report that the second one alone leaves.
pub patch_connectivity_readiness_section-again :
    (dumps : Content → String) (folder : FilePath) (s : String) (w : World) (r r' : Readiness)
    → IsReport "report.md" folder s w
    → occurs readiness_markers.start s ≡ false
    → occurs readiness_markers.stop s ≡ false
    → occurs readiness_markers.stop (readiness_body r) ≡ false
    → let report = "report.md" ∷ folder in
      (patch_connectivity_readiness_section dumps report r'
          (patch_connectivity_readiness_section dumps report r w).1).1.entry
        report
      ≡ (patch_connectivity_readiness_section dumps report r' w).1.entry report
unfolding patch_connectivity_readiness_section
patch_connectivity_readiness_section-again dumps folder s w r r' report no_start no_stop inside =
    patch_section-again _ dumps readiness_markers "report.md" folder s (readiness_body r)
      (readiness_body r') w report
      (with_section_again readiness_markers readiness_markers-IsMarked s no_start no_stop
        (readiness_body r) inside (section_of readiness_markers (readiness_body r')))
