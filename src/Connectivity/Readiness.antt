-- ===== src/Connectivity/Readiness.antt =====
-- connectivity/readiness.py. The lists of a specification hold texts, and so do environments, so
-- that sorting and looking up do not raise: the two `except Exception` branches are never taken.
use tradingchassis_ops_lab.Base.{
  ℕ, String, ◌<>◌, Bool, false, not, Option, none, some, List, [], ◌∷◌, ◌++◌, map, length, strip,
  is_empty, if◌then◌else◌, eqb,
}
use tradingchassis_ops_lab.Base.Sorting.{sorted}
use tradingchassis_ops_lab.Base.Json.{
  Json, bool, int, pos, str, arr, nil, Fields, dict, items_of, opt_str, decimal, bool_text,
}
use tradingchassis_ops_lab.World.Content.{Content}
use tradingchassis_ops_lab.World.Effects.{
  FilePath, Action, World, ok, pure, ◌>>=◌, utc_now_iso8601, readiness_artifacts,
}
use tradingchassis_ops_lab.Runs.Spec.{RunSpec, ConnectivityReadinessSpec}
use tradingchassis_ops_lab.Connectivity.Sections.{Markers}
use tradingchassis_ops_lab.Connectivity.Artifacts.{
  write_payload, update_summary, write_event, patch_section,
}

abbrev pub Environment : Type 0
Environment = String → Option String

-- `value is not None and str(value).strip() != ""`
abbrev pub filled : Option String → Bool
filled none = false
filled (some value) = not (is_empty (strip value))

unfoldable pub is_present_env : Environment → String → Bool
is_present_env env name = filled (env name)

-- `[name for name in names if test(name)]`
abbrev pub select : (String → Bool) → List String → List String
select test [] = []
select test (x ∷ xs) = if test x then x ∷ select test xs else select test xs

-- The payload; its keys `schema_version`, `probe_performed`, `probe_deferred_reason` and `errors`
-- are always the same.
pub record Readiness : Type 0 where
  pub run_id : String
  pub ts_utc : String
  pub enabled : Bool
  pub state : String
  pub target : Option String
  pub venue : String
  pub instrument : String
  pub required_env : List String
  pub optional_env : List String
  pub present_env : List String
  pub missing_env : List String
  pub missing_required_count : ℕ

-- The payload before the specification is looked at.
unfoldable pub disabled : RunSpec → String → Readiness
disabled spec ts_utc = record {
  run_id = spec.run_id;
  ts_utc = ts_utc;
  enabled = false;
  state = "disabled";
  target = none;
  venue = spec.venue;
  instrument = spec.instrument;
  required_env = [];
  optional_env = [];
  present_env = [];
  missing_env = [];
  missing_required_count = 0;
}

-- The payload of a specification that asks for the evaluation, by which names are present.
unfoldable pub checked : (String → Bool) → ConnectivityReadinessSpec → Readiness → Readiness
unfolding sorted
checked present readiness payload =
    let required = sorted readiness.credential_placeholders.required_env in
    let optional = sorted readiness.credential_placeholders.optional_env in
    let missing_required = select (λ name. not (present name)) required in
    record payload {
      required_env = required;
      optional_env = optional;
      present_env = sorted (select present (required ++ optional));
      missing_env = sorted (select (λ name. not (present name)) (required ++ optional));
      missing_required_count = length missing_required;
      state = if eqb (length missing_required) 0 then "configured" else "missing_credentials";
    }

abbrev pub readiness_of :
    (String → Bool) → RunSpec → Option ConnectivityReadinessSpec → String → Readiness
readiness_of present spec none ts_utc = disabled spec ts_utc
readiness_of present spec (some readiness) ts_utc =
    let payload = record (disabled spec ts_utc) {
      enabled = readiness.enabled;
      target = readiness.target;
    } in
    if readiness.enabled then checked present readiness payload else payload

-- `env if env is not None else os.environ`
abbrev pub observed : Option Environment → World → Environment
observed (some env) w = env
observed none w = w.env

unfoldable pub observed_env : Option Environment → Action Environment
observed_env env w = (ok (observed env w), w)

-- `_utc_now_iso8601(now_utc)`, for the text of a time that is given.
unfoldable pub effective_time : Option String → Action String
effective_time (some ts) = pure ts
effective_time none = utc_now_iso8601

unfoldable pub evaluate_connectivity_readiness :
    RunSpec → Option Environment → Option String → Action Readiness
unfolding observed_env effective_time disabled checked is_present_env
evaluate_connectivity_readiness spec env now_utc = do
  environment ← observed_env env
  ts_utc ← effective_time now_utc
  pure (readiness_of (is_present_env environment) spec spec.connectivity_readiness ts_utc)

abbrev texts_json : List String → Json
texts_json names = arr (items_of (map str names))

unfoldable pub readiness_fields : Readiness → Fields
readiness_fields r = dict (
    ("schema_version", str "v1")
    ∷ ("run_id", str r.run_id)
    ∷ ("ts_utc", str r.ts_utc)
    ∷ ("enabled", bool r.enabled)
    ∷ ("state", str r.state)
    ∷ ("target", opt_str r.target)
    ∷ ("venue", str r.venue)
    ∷ ("instrument", str r.instrument)
    ∷ ("required_env", texts_json r.required_env)
    ∷ ("optional_env", texts_json r.optional_env)
    ∷ ("present_env", texts_json r.present_env)
    ∷ ("missing_env", texts_json r.missing_env)
    ∷ ("missing_required_count", int (pos r.missing_required_count))
    ∷ ("probe_performed", bool false)
    ∷ ("probe_deferred_reason", str "local_only_no_network")
    ∷ ("errors", arr nil)
    ∷ [])

unfoldable pub write_connectivity_readiness_artifact : FilePath → Readiness → Action (Unit {0})
unfolding readiness_fields
write_connectivity_readiness_artifact path r =
    write_payload readiness_artifacts path (readiness_fields r)

abbrev pub readiness_summary : String → Bool → Fields
readiness_summary state enabled = dict (
    ("state", str state)
    ∷ ("enabled", bool enabled)
    ∷ ("probe_performed", bool false)
    ∷ ("artifact", str "connectivity_readiness.json")
    ∷ [])

unfoldable pub update_connectivity_readiness_metadata_summary :
    FilePath → String → Bool → Action (Unit {0})
update_connectivity_readiness_metadata_summary path state enabled =
    update_summary readiness_artifacts path "connectivity_readiness"
      (readiness_summary state enabled)

unfoldable pub readiness_event : Readiness → Fields
readiness_event r = dict (
    ("ts_utc", str r.ts_utc)
    ∷ ("event", str "connectivity_readiness_evaluated")
    ∷ ("run_id", str r.run_id)
    ∷ ("state", str r.state)
    ∷ ("enabled", bool r.enabled)
    ∷ ("required_env_count", int (pos (length r.required_env)))
    ∷ ("missing_required_count", int (pos r.missing_required_count))
    ∷ ("probe_performed", bool false)
    ∷ [])

unfoldable pub write_connectivity_readiness_journal_event : FilePath → Readiness → Action (Unit {0})
unfolding readiness_event
write_connectivity_readiness_journal_event path r =
    write_event readiness_artifacts path (readiness_event r)

abbrev pub readiness_markers : Markers
readiness_markers = record {
  start = "<!-- connectivity_readiness:start -->";
  stop = "<!-- connectivity_readiness:end -->";
}

-- The section without its markers.
unfoldable pub readiness_body : Readiness → String
unfolding decimal
readiness_body r =
    "## Connectivity readiness\n\n- state: "
    <> r.state
    <> "\n- enabled: "
    <> bool_text r.enabled
    <> "\n- missing_required_count: "
    <> decimal r.missing_required_count
    <> "\n- probe_performed: False\n- No network calls were performed."

unfoldable pub patch_connectivity_readiness_section :
    (Content → String) → FilePath → Readiness → Action Bool
unfolding readiness_body
patch_connectivity_readiness_section dumps path r =
    patch_section readiness_artifacts dumps readiness_markers path (readiness_body r)
