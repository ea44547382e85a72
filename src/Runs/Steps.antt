-- ===== src/Runs/Steps.antt =====
-- What each step of a lifecycle does to an open run directory.
use tradingchassis_ops_lab.Base.{String, none, List, [], ◌∷◌, ◌++◌, ◌≡◌, refl, sym, eq_iff, arith}
use tradingchassis_ops_lab.Base.Json.{Fields, end, field, get, put, update, get-put}
use tradingchassis_ops_lab.World.Content.{Content}
use tradingchassis_ops_lab.World.Effects.{
  FilePath, World, write_text, append_text, utc_now_iso8601, resolve, message_of, Exception,
}
use tradingchassis_ops_lab.World.Returns.{Returns, Returns-bind, Returns-pure}
use tradingchassis_ops_lab.Runs.Artifacts.{write_metadata, append_journal_event}
use tradingchassis_ops_lab.Runs.Lifecycle.{Session, build_lifecycle_event, log_event}
use tradingchassis_ops_lab.Runs.Opened.{
  text_in, Open, can_write-Open, Open-journal, Open-metadata, Open-metrics, Open-report,
}

get-update : (es fs : Fields) (k : String) → get es k ≡ none → get (update fs es) k ≡ get fs k
unfolding get update
get-update end fs k h = refl
get-update (field j v es) fs k h =
    ground (arith, get-put j k v fs, get-update es (put j v fs) k, eq_iff k j)

module _ (folder : FilePath) {es : List String} {st : String} (w : World)
    (o : Open folder es st w) where
  pub Returns-utc_now : Returns (utc_now_iso8601 w) (λ _ w'. Open folder es st w')
  unfolding utc_now_iso8601
  Returns-utc_now = record {
    writable = o.writable;
    is_there = o.is_there;
    logged = o.logged;
    recorded = o.recorded;
    journal_free = o.journal_free;
    metadata_free = o.metadata_free;
    metrics_free = o.metrics_free;
    report_free = o.report_free;
  }

  pub Returns-resolve : (p : FilePath) → Returns (resolve p w) (λ _ w'. Open folder es st w')
  unfolding resolve
  Returns-resolve p = o

  pub Returns-message_of : (e : Exception) → Returns (message_of e w) (λ _ w'. Open folder es st w')
  unfolding message_of
  Returns-message_of e = o

  pub Returns-write_metadata :
      (m : Fields) {status : String}
      → text_in m "status" ≡ status
      → Returns (write_metadata ("metadata.json" ∷ folder) m w) (λ _ w'. Open folder es status w')
  unfolding write_metadata write_text
  Returns-write_metadata m h =
      rw (can_write-Open folder "metadata.json" w (o.writable _) o.is_there o.metadata_free)
        (rw (sym h) (Open-metadata folder w o m))

  pub Returns-write_metrics :
      (c : Content)
      → Returns (write_text ("metrics.json" ∷ folder) c w) (λ _ w'. Open folder es st w')
  unfolding write_text
  Returns-write_metrics c =
      rw (can_write-Open folder "metrics.json" w (o.writable _) o.is_there o.metrics_free)
        (Open-metrics folder w o c)

  pub Returns-write_report :
      (c : Content) → Returns (write_text ("report.md" ∷ folder) c w) (λ _ w'. Open folder es st w')
  unfolding write_text
  Returns-write_report c =
      rw (can_write-Open folder "report.md" w (o.writable _) o.is_there o.report_free)
        (Open-report folder w o c)

  pub Returns-append :
      (fs : Fields)
      → Returns
          (append_journal_event ("journal.jsonl" ∷ folder) fs w)
          (λ _ w'. Open folder (es ++ (text_in fs "event" ∷ [])) st w')
  unfolding append_journal_event append_text
  Returns-append fs =
      rw (can_write-Open folder "journal.jsonl" w (o.writable _) o.is_there o.journal_free)
        (Open-journal folder w o fs)

module _ (s : Session) {es : List String} {st : String} where
  Returns-build :
      (event status : String) (extra : Fields) (w : World)
      → get extra "event" ≡ none
      → Open s.artifacts_dir es st w
      → Returns
          (build_lifecycle_event s event status extra w)
          (λ payload w'. (text_in payload "event" ≡ event) × Open s.artifacts_dir es st w')
  unfolding build_lifecycle_event get
  Returns-build event status extra w h o =
      Returns-bind _ _ w _ _ (Returns-utc_now s.artifacts_dir w o) λ ts w1 o1.
        Returns-bind _ _ w1 _ _ (Returns-resolve s.artifacts_dir w1 o1 s.artifacts_dir)
          λ d w2 o2. Returns-pure _ w2 _ (text_in-update _ h, o2)
    where
      text_in-update :
          (fs : Fields)
          → get extra "event" ≡ none
          → text_in (update fs extra) "event" ≡ text_in fs "event"
      text_in-update fs h = rw (get-update extra fs "event" h, text_in) refl

  -- An event is put at the end of the journal.
  pub Returns-log_event :
      (event status : String) (extra : Fields) (w : World)
      → get extra "event" ≡ none
      → Open s.artifacts_dir es st w
      → Returns
          (log_event s event status extra w)
          (λ _ w'. Open s.artifacts_dir (es ++ (event ∷ [])) st w')
  unfolding log_event
  Returns-log_event event status extra w h o =
      Returns-bind _ _ w _ _ (Returns-build event status extra w h o)
        λ payload w1 b. rw (sym b.0) (Returns-append s.artifacts_dir w1 b.1 payload)
