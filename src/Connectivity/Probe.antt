-- ===== src/Connectivity/Probe.antt =====
-- The evaluation of a probe and its artifacts: the rest of connectivity/probe.py.
use tradingchassis_ops_lab.Base.{
  ℕ, String, ◌<>◌, Bool, true, false, Option, none, some, List, [], ◌∷◌, map,
}
use tradingchassis_ops_lab.Base.Json.{
  Json, null, bool, int, pos, float, str, arr, Fields, dict, items_of, opt_str, decimal,
}
use tradingchassis_ops_lab.World.Content.{Content}
use tradingchassis_ops_lab.World.Effects.{FilePath, Action, pure, lift, ◌>>=◌, probe_artifacts}
use tradingchassis_ops_lab.Runs.Spec.{RunSpec}
use tradingchassis_ops_lab.Connectivity.Url.{
  Urllib, Reply, response, http_error, url_error, timed_out, failed, validate_loopback_probe_url,
}
use tradingchassis_ops_lab.Connectivity.Sections.{Markers}
use tradingchassis_ops_lab.Connectivity.Readiness.{effective_time}
use tradingchassis_ops_lab.Connectivity.Artifacts.{
  write_payload, update_summary, write_event, patch_section,
}

-- The payload; its keys `schema_version`, `target`, `method`, `network_scope`, `probe_performed`
-- and `response_body_stored` are always the same.
pub record Probe : Type 0 where
  pub run_id : String
  pub ts_utc : String
  pub venue : String
  pub instrument : String
  pub url : String
  pub state : String
  pub http_status : Option ℕ
  pub latency_ms : ℕ
  pub error_class : Option String
  pub errors : List String

pub record Verdict : Type 0 where
  pub state : String
  pub http_status : Option ℕ
  pub error_class : Option String
  pub errors : List String

-- A failure without a status.
abbrev pub failing : String → String → Verdict
failing state error = record {
  state = state;
  http_status = none;
  error_class = some error;
  errors = error ∷ [];
}

unfoldable pub verdict_of : Reply → Verdict
verdict_of (response status) = record {
  state = "probe_ok";
  http_status = some status;
  error_class = none;
  errors = [];
}
verdict_of (http_error status) = record {
  state = "probe_http_error";
  http_status = some status;
  error_class = some "http_error";
  errors = "http_error" ∷ [];
}
verdict_of (url_error true) = failing "probe_timeout" "timeout"
verdict_of (url_error false) = failing "probe_unreachable" "connection_error"
verdict_of timed_out = failing "probe_timeout" "timeout"
verdict_of failed = failing "probe_unknown" "unknown"

abbrev pub probe_of : RunSpec → String → String → Verdict → ℕ → Probe
probe_of spec url ts_utc v latency = record {
  run_id = spec.run_id;
  ts_utc = ts_utc;
  venue = spec.venue;
  instrument = spec.instrument;
  url = url;
  state = v.state;
  http_status = v.http_status;
  latency_ms = latency;
  error_class = v.error_class;
  errors = v.errors;
}

unfoldable pub evaluate_connectivity_probe :
    Urllib → RunSpec → String → ℕ → Option String → Action Probe
unfolding validate_loopback_probe_url verdict_of
evaluate_connectivity_probe lib spec url timeout_ms now_utc = do
  validated_url ← lift (validate_loopback_probe_url lib url)
  ts_utc ← effective_time now_utc
  let (reply, latency) = lib.urlopen validated_url timeout_ms
  pure (probe_of spec validated_url ts_utc (verdict_of reply) latency)

abbrev opt_int : Option ℕ → Json
opt_int none = null
opt_int (some n) = int (pos n)

unfoldable pub probe_fields : Probe → Fields
probe_fields p = dict (
    ("schema_version", str "v1")
    ∷ ("run_id", str p.run_id)
    ∷ ("ts_utc", str p.ts_utc)
    ∷ ("target", str "local_fake_http")
    ∷ ("venue", str p.venue)
    ∷ ("instrument", str p.instrument)
    ∷ ("url", str p.url)
    ∷ ("method", str "GET")
    ∷ ("network_scope", str "loopback_only")
    ∷ ("probe_performed", bool true)
    ∷ ("state", str p.state)
    ∷ ("http_status", opt_int p.http_status)
    ∷ ("latency_ms", float p.latency_ms)
    ∷ ("error_class", opt_str p.error_class)
    ∷ ("response_body_stored", bool false)
    ∷ ("errors", arr (items_of (map str p.errors)))
    ∷ [])

unfoldable pub write_connectivity_probe_artifact : FilePath → Probe → Action (Unit {0})
unfolding probe_fields
write_connectivity_probe_artifact path p = write_payload probe_artifacts path (probe_fields p)

abbrev pub probe_summary : String → Fields
probe_summary state = dict (
    ("state", str state)
    ∷ ("probe_performed", bool true)
    ∷ ("network_scope", str "loopback_only")
    ∷ ("artifact", str "connectivity_probe.json")
    ∷ [])

unfoldable pub update_connectivity_probe_metadata_summary : FilePath → String → Action (Unit {0})
update_connectivity_probe_metadata_summary path state =
    update_summary probe_artifacts path "connectivity_probe" (probe_summary state)

unfoldable pub probe_event : Probe → Fields
probe_event p = dict (
    ("ts_utc", str p.ts_utc)
    ∷ ("event", str "connectivity_probe_evaluated")
    ∷ ("run_id", str p.run_id)
    ∷ ("state", str p.state)
    ∷ ("probe_performed", bool true)
    ∷ ("network_scope", str "loopback_only")
    ∷ ("http_status", opt_int p.http_status)
    ∷ ("latency_ms", float p.latency_ms)
    ∷ ("error_class", opt_str p.error_class)
    ∷ [])

unfoldable pub write_connectivity_probe_journal_event : FilePath → Probe → Action (Unit {0})
unfolding probe_event
write_connectivity_probe_journal_event path p = write_event probe_artifacts path (probe_event p)

abbrev pub probe_markers : Markers
probe_markers = record {
  start = "<!-- connectivity_probe:start -->";
  stop = "<!-- connectivity_probe:end -->";
}

abbrev status_text : Option ℕ → String
status_text none = "None"
status_text (some n) = decimal n

-- The section without its markers.
unfoldable pub probe_body : Urllib → Probe → String
unfolding decimal
probe_body lib p =
    "## Connectivity probe\n\n- state: "
    <> p.state
    <> "\n- network_scope: loopback_only\n- probe_performed: True\n- http_status: "
    <> status_text p.http_status
    <> "\n- latency_ms: "
    <> lib.float_text p.latency_ms
    <> "\n- response_body_stored: False\n- external connectivity: not used"

unfoldable pub patch_connectivity_probe_section :
    Urllib → (Content → String) → FilePath → Probe → Action Bool
unfolding probe_body
patch_connectivity_probe_section lib dumps path p =
    patch_section probe_artifacts dumps probe_markers path (probe_body lib p)
