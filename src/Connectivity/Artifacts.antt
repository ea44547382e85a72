-- ===== src/Connectivity/Artifacts.antt =====
-- What readiness.py and probe.py do alike to the files of a run: `_read_json_object`, the summary in
-- metadata.json, the event in the journal and the section of the report. They differ in the
-- exception class, the first argument of each action, and in what they write.
use tradingchassis_ops_lab.Base.{String, Bool, true, false, not, if◌then◌else◌}
use tradingchassis_ops_lab.Base.Json.{Json, obj, Fields, put}
use tradingchassis_ops_lab.World.Content.{Content, document, text}
use tradingchassis_ops_lab.World.Effects.{
  FilePath, Exception, Result, ok, raised, Action, pure, raise, lift, os_error_as, ◌>>=◌, ◌>>◌,
  exists, is_file, read_text, read_json, write_text, append_text,
}
use tradingchassis_ops_lab.Connectivity.Sections.{Markers, section_of, with_section}

-- `json.dumps(payload, …)` to a file.
unfoldable pub write_payload : Exception → FilePath → Fields → Action (Unit {0})
write_payload e path payload = os_error_as e (write_text path (document (obj payload)))

abbrev pub object_of : Exception → Json → Result Fields
object_of e (obj fs) = ok fs
object_of e _ = raised e

unfoldable pub read_json_object : Exception → FilePath → Action Fields
read_json_object e path = do payload ← read_json e path; lift (object_of e payload)

unfoldable pub update_summary : Exception → FilePath → String → Fields → Action (Unit {0})
unfolding read_json_object write_payload
update_summary e path key summary = do
  metadata ← read_json_object e path
  write_payload e path (put key (obj summary) metadata)

unfoldable pub write_event : Exception → FilePath → Fields → Action (Unit {0})
write_event e path event = os_error_as e (append_text path (obj event))

-- The characters of a file; those of a JSON file are given by the argument `dumps`.
abbrev pub characters : (Content → String) → Content → String
characters dumps (text s) = s
characters dumps c = dumps c

unfoldable pub patch_section :
    Exception → (Content → String) → Markers → FilePath → String → Action Bool
unfolding with_section
patch_section e dumps markers path body = do
  there ← exists path
  if not there then pure false else (do
    regular ← is_file path
    if not regular then raise e else (do
      existing ← os_error_as e (read_text path)
      os_error_as e (
          write_text path
            (text (with_section markers (characters dumps existing) (section_of markers body))))
      pure true))
