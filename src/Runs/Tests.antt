-- ===== src/Runs/Tests.antt =====
-- A run in a small world, and the theorems on runs at that data.
use tradingchassis_ops_lab.Base.{
  String, Bool, true, false, Option, none, some, [], ◌∷◌, ◌≡◌, refl, ◌⊎◌, inr, if◌then◌else◌, ◌==◌,
  eq_iff, arith, strip, is_empty,
}
use tradingchassis_ops_lab.Base.Json.{Json, bool, obj}
use tradingchassis_ops_lab.World.Content.{document, text}
use tradingchassis_ops_lab.World.Effects.{
  FilePath, Entry, absent, dir, file, World, ok, raised, ◌>>=◌, read_text, read_json, exists,
  os_error_as, lift, kill_switch_read, run_artifacts_exist,
}
use tradingchassis_ops_lab.KillSwitch.Payloads.{
  KillSwitchState, state_fields, status_of, absent_status,
}
use tradingchassis_ops_lab.KillSwitch.Parse.{IsWellFormed}
use tradingchassis_ops_lab.KillSwitch.Status.{status_of_file}
use tradingchassis_ops_lab.KillSwitch.Operations.{
  get_kill_switch_status, read_state, validate_run_id,
}
use tradingchassis_ops_lab.Runs.Spec.{RunSpec, run_spec_to_normalized_dict}
use tradingchassis_ops_lab.Runs.Validate.{validate_run_spec, venue_matches}
use tradingchassis_ops_lab.Runs.Valid.{IsTrimmed, IsValidSpec}
use tradingchassis_ops_lab.Runs.Sound.{validate_run_spec-IsValidSpec}
use tradingchassis_ops_lab.Runs.RoundTrip.{validate_run_spec-run_spec_to_normalized_dict}
use tradingchassis_ops_lab.Runs.Artifacts.{Libraries, load_run_spec}
use tradingchassis_ops_lab.Runs.Ready.{IsReady}
use tradingchassis_ops_lab.Runs.Paper.{run_paper_lifecycle}
use tradingchassis_ops_lab.Runs.PaperLifecycle.{ticked}
use tradingchassis_ops_lab.Runs.PaperEnds.{
  Ends, run_paper_lifecycle-active, run_paper_lifecycle-inactive,
}
use tradingchassis_ops_lab.Runs.PaperGuards.{
  run_paper_lifecycle-unreadable_switch, run_paper_lifecycle-existing_run,
}

abbrev pub spec_in : String → RunSpec
spec_in mode = record {
  spec_version = "v1";
  run_id = "r1";
  mode = mode;
  engine = "nautilus";
  venue = "BINANCE";
  instrument = "BTCUSDT";
  strategy = record { name = "ops_smoke_demo"; version = "1" };
  data_spec = record { dataset = "btc"; fingerprint = none };
  risk = record { profile = "default" };
  observability = record { journal = true; metrics = false; report = true };
  connectivity_readiness = none;
}

IsTrimmed-literal : (s : String) → (strip s ≡ s) → (is_empty s ≡ false) → IsTrimmed s
IsTrimmed-literal s h k = record { trimmed = h; full = k }

pub spec-IsValidSpec :
    (mode : String) → (mode ≡ "backtest") ⊎ (mode ≡ "paper") → IsValidSpec (spec_in mode)
unfolding strip venue_matches
spec-IsValidSpec mode known = record {
  version_known = refl;
  run_id_trimmed = IsTrimmed-literal "r1" refl refl;
  mode_known = known;
  engine_known = refl;
  venue_trimmed = IsTrimmed-literal "BINANCE" refl refl;
  instrument_trimmed = IsTrimmed-literal "BTCUSDT" refl refl;
  name_trimmed = IsTrimmed-literal "ops_smoke_demo" refl refl;
  strategy_version_trimmed = IsTrimmed-literal "1" refl refl;
  dataset_trimmed = IsTrimmed-literal "btc" refl refl;
  fingerprint_trimmed = tt;
  profile_trimmed = IsTrimmed-literal "default" refl refl;
  readiness_valid = tt;
  venues_match = refl;
}

abbrev pub to_bool_of : Json → Option Bool
to_bool_of (bool b) = some b
to_bool_of _ = none

-- The round trip and the validity of what is read, at this specification.
validate_run_spec-run_spec_to_normalized_dict_example :
    validate_run_spec to_bool_of (obj (run_spec_to_normalized_dict (spec_in "paper")))
    ≡ some (spec_in "paper")
validate_run_spec-run_spec_to_normalized_dict_example =
    validate_run_spec-run_spec_to_normalized_dict to_bool_of (λ b. refl) (spec_in "paper")
      (spec-IsValidSpec "paper" (inr refl))

validate_run_spec-IsValidSpec_example : IsValidSpec (spec_in "paper")
validate_run_spec-IsValidSpec_example =
    validate_run_spec-IsValidSpec to_bool_of (obj (run_spec_to_normalized_dict (spec_in "paper")))
      validate_run_spec-run_spec_to_normalized_dict_example

abbrev pub libraries : String → Libraries
libraries mode = record {
  safe_load = λ _. some (obj (run_spec_to_normalized_dict (spec_in mode)));
  to_bool = to_bool_of;
  sha256 = λ _. "0";
}

abbrev pub spec_file : FilePath
spec_file = "spec.yaml" ∷ []

abbrev root : FilePath
root = "kill_switch" ∷ []

abbrev active_state : KillSwitchState
active_state = record {
  schema_version = "v1";
  run_id = "r1";
  state = "active";
  updated_at_utc = "2024-01-01T00:00:00Z";
  last_event_id = "id";
  last_reason = "halt";
  last_actor = "op";
  active_since_utc = some "2024-01-01T00:00:00Z";
  cleared_at_utc = none;
}

-- The entries of the world, by what stands at the state path of the run and at its directory.
abbrev entries : Entry → Entry → FilePath → Entry
entries switch run [] = dir
entries switch run (s ∷ []) =
    if s == "spec.yaml" then file (text "spec") else if s == "artifacts" then dir else absent
entries switch run (s ∷ t ∷ []) =
    if t == "kill_switch"
    then (if s == "r1.state.json" then switch else absent)
    else if s == "runs"
    then dir
    else absent
entries switch run (s ∷ t ∷ u ∷ []) = run
entries switch run (_ ∷ _ ∷ _ ∷ _ ∷ _) = absent

abbrev pub world : Entry → Entry → World
world switch run = record {
  entry = entries switch run;
  unreadable = λ _. false;
  unwritable = λ _. false;
  left = λ _. none;
  env = λ _. none;
  resolved = λ p. "/srv";
  message = λ e. "failed";
  clock = λ _. "2024-01-01T00:00:00Z";
  micros = λ _. 63839664000000000;
  ticks = 0;
  uuids = λ _. "id";
  drawn = 0;
}

abbrev active : Entry
active = file (document (obj (state_fields active_state)))

ready : (switch : Entry) → IsReady spec_file "r1" (world switch absent)
ready switch = record {
  writable = λ _. refl;
  source = text "spec";
  spec_there = refl;
  spec_readable = refl;
  artifacts_there = refl;
  root_there = refl;
  fresh = refl;
  fresh_inside = λ s. refl;
}

loads_paper :
    (switch run : Entry)
    → (load_run_spec (libraries "paper") spec_file (world switch run)).0 ≡ ok (spec_in "paper")
unfolding load_run_spec read_text os_error_as lift ◌>>=◌
loads_paper switch run = rw validate_run_spec-run_spec_to_normalized_dict_example refl

active-IsWellFormed : IsWellFormed active_state
active-IsWellFormed = ground arith

status_active :
    (run : Entry)
    → (get_kill_switch_status "r1" root (world active run)).0 ≡ ok (status_of active_state)
unfolding strip
status_active run =
    status_of_file "r1" root active_state (world active run) refl refl refl active-IsWellFormed

status_absent : (get_kill_switch_status "r1" root (world absent absent)).0 ≡ ok (absent_status "r1")
unfolding get_kill_switch_status exists ◌>>=◌ validate_run_id strip
status_absent = refl

run_paper_lifecycle-active_example :
    Ends
      (libraries "paper")
      spec_file
      root
      (spec_in "paper")
      (world active absent)
      "safety_blocked"
      ("run_started" ∷ "paper_safety_checked" ∷ "paper_safety_blocked" ∷ "run_completed" ∷ [])
run_paper_lifecycle-active_example =
    run_paper_lifecycle-active (libraries "paper") spec_file root (spec_in "paper")
      (status_of active_state) (world active absent) (loads_paper active absent) refl (ready active)
      (status_active absent) refl

run_paper_lifecycle-inactive_example :
    Ends (libraries "paper") spec_file root (spec_in "paper") (world absent absent) "completed" (
      "run_started" ∷ "paper_safety_checked" ∷ "paper_started" ∷ "paper_heartbeat"
      ∷ "paper_heartbeat" ∷ "paper_heartbeat" ∷ "paper_completed" ∷ "run_completed" ∷ [])
run_paper_lifecycle-inactive_example =
    run_paper_lifecycle-inactive (libraries "paper") spec_file root (spec_in "paper")
      (absent_status "r1") (world absent absent) (loads_paper absent absent) refl (ready absent)
      status_absent (λ e. ground (arith, eq_iff "absent" "active"))

-- A folder at the state path cannot be read.
status_failed : (get_kill_switch_status "r1" root (world dir absent)).0 ≡ raised kill_switch_read
unfolding get_kill_switch_status exists ◌>>=◌ validate_run_id strip read_state read_json read_text
    os_error_as
status_failed = refl

run_paper_lifecycle-unreadable_switch_example :
    run_paper_lifecycle (libraries "paper") spec_file root (world dir absent)
    ≡ (raised kill_switch_read, ticked (world dir absent))
run_paper_lifecycle-unreadable_switch_example =
    run_paper_lifecycle-unreadable_switch (libraries "paper") spec_file root (spec_in "paper")
      (world dir absent) (loads_paper dir absent) refl kill_switch_read status_failed

run_paper_lifecycle-existing_run_example :
    ((run_paper_lifecycle (libraries "paper") spec_file root (world active dir)).0
      ≡ raised run_artifacts_exist)
    × ((run_paper_lifecycle (libraries "paper") spec_file root (world active dir)).1.entry
        ≡ entries active dir)
run_paper_lifecycle-existing_run_example =
    run_paper_lifecycle-existing_run (libraries "paper") spec_file root (spec_in "paper")
      (world active dir) (loads_paper active dir) refl (status_of active_state) (status_active dir)
      refl
