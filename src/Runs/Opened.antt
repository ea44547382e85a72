-- ===== src/Runs/Opened.antt =====
-- A run directory that is being written to: what its journal and its metadata say so far.
use tradingchassis_ops_lab.Base.{
  String, true, false, Option, none, some, List, [], ◌∷◌, ◌++◌, map, ◌≡◌, refl, arith,
}
use tradingchassis_ops_lab.Base.Json.{str, obj, Fields, get}
use tradingchassis_ops_lab.World.Content.{
  Content, document, journal, text, undecodable, Line, entry, append_line, lines_of,
}
use tradingchassis_ops_lab.World.Effects.{
  FilePath, same_path, Entry, absent, dir, file, is_dir_entry, can_write, extended, World,
  set_entry,
}
use tradingchassis_ops_lab.World.Frame.{same_path_self}

-- `d[k]` where it is a text, and otherwise the empty text.
abbrev pub text_in : Fields → String → String
text_in fs k = elim (get fs k) [ some (str s) ↦ s | _ ↦ "" ]

-- The name of the event that a line of a journal holds.
abbrev pub line_event : Line → String
line_event (entry (obj fs)) = text_in fs "event"
line_event _ = ""

-- The names of the events in a journal, in their order.
abbrev pub event_names : Entry → Option (List String)
event_names absent = some []
event_names (file (journal ls)) = some (map line_event ls)
event_names _ = none

-- The status in a metadata file.
abbrev pub metadata_status : Entry → String
metadata_status (file (document (obj fs))) = text_in fs "status"
metadata_status _ = ""

map_snoc :
    (ls : List Line) (l : Line)
    → map line_event (ls ++ (l ∷ [])) ≡ map line_event ls ++ (line_event l ∷ [])
map_snoc [] l = refl
map_snoc (k ∷ ls) l = rw (map_snoc ls l) refl

some-snoc :
    (xs ys : List String) (x : String)
    → (◌≡◌ {A = Option (List String)} (some xs) (some ys))
    → ◌≡◌ {A = Option (List String)} (some (xs ++ (x ∷ []))) (some (ys ++ (x ∷ [])))
some-snoc xs ys x h = cc

event_names-extended :
    (e : Entry) (es : List String) (fs : Fields)
    → event_names e ≡ some es
    → event_names (file (extended e (obj fs))) ≡ some (es ++ (text_in fs "event" ∷ []))
unfolding append_line lines_of
event_names-extended absent es fs h = some-snoc [] es _ h
event_names-extended dir es fs h = cc
event_names-extended (file (document v)) es fs h = cc
event_names-extended (file (journal ls)) es fs h =
    rw (map_snoc ls (entry (obj fs))) (some-snoc _ es _ h)
event_names-extended (file (text s)) es fs h = cc
event_names-extended (file undecodable) es fs h = cc

-- Every path can be written, the folder is there, and its four files, as far as they are there, are
-- files; the journal holds the events `es`, and the metadata the status `status`.
pub record Open (folder : FilePath) (es : List String) (status : String) (w : World) : Type 0 where
  pub writable : (p : FilePath) → w.unwritable p ≡ false
  pub is_there : w.entry folder ≡ dir
  pub logged : event_names (w.entry ("journal.jsonl" ∷ folder)) ≡ some es
  pub recorded : metadata_status (w.entry ("metadata.json" ∷ folder)) ≡ status
  pub journal_free : is_dir_entry (w.entry ("journal.jsonl" ∷ folder)) ≡ false
  pub metadata_free : is_dir_entry (w.entry ("metadata.json" ∷ folder)) ≡ false
  pub metrics_free : is_dir_entry (w.entry ("metrics.json" ∷ folder)) ≡ false
  pub report_free : is_dir_entry (w.entry ("report.md" ∷ folder)) ≡ false

pub same_path_inside : (s : String) (p : FilePath) → same_path p (s ∷ p) ≡ false
same_path_inside s [] = refl
same_path_inside s (t ∷ p) = ground (arith, same_path_inside t p)

pub can_write-Open :
    (folder : FilePath) (s : String) (w : World)
    → w.unwritable (s ∷ folder) ≡ false
    → w.entry folder ≡ dir
    → is_dir_entry (w.entry (s ∷ folder)) ≡ false
    → can_write w (s ∷ folder) ≡ true
unfolding can_write
can_write-Open folder s w hw hd hf = rw hw (rw hd (rw hf refl))

module _ (folder : FilePath) {es : List String} {st : String} (w : World)
    (o : Open folder es st w) where
  pub Open-journal :
      (fs : Fields)
      → Open folder (es ++ (text_in fs "event" ∷ [])) st (
          set_entry
            ("journal.jsonl" ∷ folder)
            (file (extended (w.entry ("journal.jsonl" ∷ folder)) (obj fs)))
            w)
  Open-journal fs = record {
    writable = o.writable;
    is_there = rw (same_path_inside _ folder) o.is_there;
    logged = rw (same_path_self folder) (event_names-extended _ es fs o.logged);
    recorded = o.recorded;
    journal_free = rw (same_path_self folder) refl;
    metadata_free = o.metadata_free;
    metrics_free = o.metrics_free;
    report_free = o.report_free;
  }

  pub Open-metadata :
      (m : Fields)
      → Open folder es
          (text_in m "status")
          (set_entry ("metadata.json" ∷ folder) (file (document (obj m))) w)
  Open-metadata m = record {
    writable = o.writable;
    is_there = rw (same_path_inside _ folder) o.is_there;
    logged = o.logged;
    recorded = rw (same_path_self folder) refl;
    journal_free = o.journal_free;
    metadata_free = rw (same_path_self folder) refl;
    metrics_free = o.metrics_free;
    report_free = o.report_free;
  }

  pub Open-metrics :
      (c : Content) → Open folder es st (set_entry ("metrics.json" ∷ folder) (file c) w)
  Open-metrics c = record {
    writable = o.writable;
    is_there = rw (same_path_inside _ folder) o.is_there;
    logged = o.logged;
    recorded = o.recorded;
    journal_free = o.journal_free;
    metadata_free = o.metadata_free;
    metrics_free = rw (same_path_self folder) refl;
    report_free = o.report_free;
  }

  pub Open-report : (c : Content) → Open folder es st (set_entry ("report.md" ∷ folder) (file c) w)
  Open-report c = record {
    writable = o.writable;
    is_there = rw (same_path_inside _ folder) o.is_there;
    logged = o.logged;
    recorded = o.recorded;
    journal_free = o.journal_free;
    metadata_free = o.metadata_free;
    metrics_free = o.metrics_free;
    report_free = rw (same_path_self folder) refl;
  }
