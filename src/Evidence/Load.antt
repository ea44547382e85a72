-- ===== src/Evidence/Load.antt =====
-- The readers of evidence/compare.py. Python's `==` and `str` on JSON values are a parameter.
use tradingchassis_ops_lab.Base.{
  String, Bool, Option, none, some, List, [], ◌∷◌, ◌++◌, map, strip, is_empty, contains,
  if◌then◌else◌, length,
}
use tradingchassis_ops_lab.Base.Sorting.{sorted}
use tradingchassis_ops_lab.Base.Json.{
  Json, bool, int, pos, str, arr, obj, Fields, dict, get, items_of,
}
use tradingchassis_ops_lab.World.Content.{Line, blank, entry, lines_of, loads}
use tradingchassis_ops_lab.World.Effects.{
  FilePath, Result, ok, raised, Action, pure, lift, ◌>>=◌, is_file, read_text, evidence_artifacts,
}

pub record Python : Type 0 where
  pub equal : Json → Json → Bool
  pub str_of : Json → String

abbrev pub core_artifact_names : List String
core_artifact_names = "metadata.json" ∷ "metrics.json" ∷ "journal.jsonl" ∷ "report.md" ∷ []

abbrev pub optional_artifact_names : List String
optional_artifact_names =
    "connectivity_readiness.json" ∷ "connectivity_probe.json" ∷ "reconciliation_result.json" ∷ []

-- The object of a document; any other content or value is a parse error.
abbrev pub object_read : Option Json → Result Fields
object_read (some (obj fs)) = ok fs
object_read _ = raised evidence_artifacts

unfoldable pub load_json_required : FilePath → Action Fields
load_json_required path = do c ← read_text path; lift (object_read (loads c))

unfoldable pub load_json_optional : FilePath → Action (Option Fields)
unfolding load_json_required
load_json_optional path = do
  regular ← is_file path
  if regular then (do fs ← load_json_required path; pure (some fs)) else pure none

abbrev pub also : Fields → Result (List Fields) → Result (List Fields)
also fs (ok events) = ok (fs ∷ events)
also fs (raised e) = raised e

-- The lines of a journal; the first bad one raises.
unfoldable pub events_of : List Line → Result (List Fields)
events_of [] = ok []
events_of (blank ∷ ls) = events_of ls
events_of (entry (obj fs) ∷ ls) = also fs (events_of ls)
events_of (_ ∷ ls) = raised evidence_artifacts

unfoldable pub load_journal_events : FilePath → Action (List Fields)
unfolding events_of lines_of
load_journal_events path = do c ← read_text path; lift (events_of (lines_of c))

-- `value.strip()` of a text that is not blank.
abbrev pub nonblank : Option Json → Option String
nonblank (some (str s)) = if is_empty (strip s) then none else some (strip s)
nonblank _ = none

unfoldable pub read_optional_state : Option Fields → String → Option String
unfolding strip
read_optional_state none key = none
read_optional_state (some payload) key = nonblank (get payload key)

abbrev pub object_at : Fields → String → Option Fields
object_at fs key = elim (get fs key) [ some (obj gs) ↦ some gs | _ ↦ none ]

-- The state of the kill switch and the outcome of the lifecycle.
unfoldable pub paper_safety_states : Fields → Option String × Option String
unfolding read_optional_state
paper_safety_states metadata = elim (object_at metadata "safety") [
  | none ↦ (none, none)
  | some safety ↦ (
    read_optional_state (object_at safety "kill_switch") "state",
    read_optional_state (some safety) "lifecycle_outcome",
  )
]

-- Which names are files in a folder.
unfoldable pub presence_of : FilePath → List String → Action (List (String × Bool))
presence_of run_dir [] = pure []
presence_of run_dir (name ∷ names) = do
  regular ← is_file (name ∷ run_dir)
  rest ← presence_of run_dir names
  pure ((name, regular) ∷ rest)

unfoldable pub build_artifact_presence : FilePath → Action (List (String × Bool))
unfolding presence_of sorted
build_artifact_presence run_dir =
    presence_of run_dir (sorted (core_artifact_names ++ optional_artifact_names))

abbrev pub presence_json : List (String × Bool) → Json
presence_json es = obj (dict (map (λ e. (e.0, bool e.1)) es))

-- A list without repetitions, the last of each kept.
abbrev pub distinct : List String → List String
distinct [] = []
distinct (x ∷ xs) = let rest = distinct xs in if contains xs x then rest else x ∷ rest

abbrev pub named : Option Json → List String → List String
named (some (str s)) rest = if is_empty (strip s) then rest else s ∷ rest
named _ rest = rest

abbrev pub names_in : List Fields → List String
names_in [] = []
names_in (e ∷ es) = named (get e "event") (names_in es)

-- `_journal_summary`: the number of the events and their names.
unfoldable pub journal_names : List Fields → List String
unfolding sorted strip
journal_names events = sorted (distinct (names_in events))

abbrev pub texts_json : List String → Json
texts_json names = arr (items_of (map str names))

unfoldable pub journal_summary : List Fields → Json
unfolding journal_names
journal_summary events = obj (
    dict (
      ("event_total", int (pos (length events)))
      ∷ ("events", texts_json (journal_names events))
      ∷ []))
