-- ===== src/KillSwitch/Tests.antt =====
-- Runs of the kill switch in a small world, and the theorems at concrete data.
use tradingchassis_ops_lab.Base.{
  ◌⊎◌, String, true, false, none, some, [], ◌∷◌, ◌≡◌, ◌≢◌, ◌↔◌, refl, arith, strip, if◌then◌else◌,
  eq_iff,
}
use tradingchassis_ops_lab.Base.Json.{str, arr, nil, obj, Fields, end, field, get, put, has_all}
use tradingchassis_ops_lab.World.Content.{text, document, loads}
use tradingchassis_ops_lab.World.Effects.{
  FilePath, Entry, absent, dir, file, World, Result, ok, raised, same_path, ◌>>=◌, utc_now_iso8601,
  uuid4, exists, is_dir, is_file, read_json, write_text, append_text, make_dirs, type_error,
  kill_switch_read,
}
use tradingchassis_ops_lab.World.Atomic.{Torn}
use tradingchassis_ops_lab.KillSwitch.Payloads.{
  state_path, KillSwitchState, KillSwitchStatus, state_fields, event_json, status_of, state_active,
  state_cleared,
}
use tradingchassis_ops_lab.KillSwitch.Parse.{
  IsWellFormed, parse_state_payload, parse_state_payload-state_fields,
  parse_state_payload-IsWellFormed, parse_state_payload-type_error, state_keys, value,
  is_unhashable,
}
use tradingchassis_ops_lab.KillSwitch.Operations.{
  validate_run_id, validate_reason, resolve_actor, write_state, append_event,
  append_optional_artifact_journal_event, read_state, get_kill_switch_status, activate_kill_switch,
  clear_kill_switch, activated_state, cleared_state, update_artifact_metadata_safety_snapshot,
  build_safety_snapshot, snapshot_json, path_text,
}
use tradingchassis_ops_lab.KillSwitch.Isolation.{
  activate_isolated, clear_isolated, activate_failed, clear_failed,
}
use tradingchassis_ops_lab.KillSwitch.Outcome.{Stamps, activate_sets_active, clear_sets_cleared}
use tradingchassis_ops_lab.KillSwitch.Snapshot.{object_at, update_replaces_safety}

abbrev root : FilePath
root = "kill_switch" ∷ []

abbrev artifacts : FilePath
artifacts = "runs" ∷ []

abbrev metadata : Fields
metadata =
    field "run_id" (str "r1")
      (field "safety" (obj (field "lifecycle_outcome" (str "checked_continue") end)) end)

abbrev entries : FilePath → Entry
entries p =
    if same_path p []
    then dir
    else if same_path p ("r1" ∷ artifacts)
    then dir
    else if same_path p ("metadata.json" ∷ "r1" ∷ artifacts)
    then file (document (obj metadata))
    else absent

abbrev start : World
start = record {
  entry = entries;
  unreadable = λ _. false;
  unwritable = λ _. false;
  left = λ _. none;
  env = λ _. none;
  resolved = λ p. "/srv";
  message = λ e. "failed";
  clock = λ _. "2024-01-01T00:00:00Z";
  micros = λ _. 63839664000000000;
  ticks = 0;
  uuids = λ _. "id";
  drawn = 0;
}

-- The same world, in which no state file can be written.
abbrev locked : World
locked = record start { unwritable = λ p. same_path p ("r1.state.json" ∷ root) }

Stamps-start : Stamps start
Stamps-start = record { clock = λ _. refl; uuids = λ _. refl }

-- All that a run of the operations computes through.
activate : World → Result KillSwitchState × World
unfolding activate_kill_switch validate_run_id validate_reason resolve_actor get_kill_switch_status
    append_event append_optional_artifact_journal_event write_state read_state ◌>>=◌ utc_now_iso8601
    uuid4 exists is_dir is_file make_dirs write_text append_text read_json parse_state_payload
    state_fields get strip event_json
activate = activate_kill_switch " r1 " " drill " none root artifacts

on : World
unfolding activate
on = (activate start).1

abbrev active_state : KillSwitchState
active_state = activated_state "r1" "drill" "unknown" "2024-01-01T00:00:00Z" "id"

activate_runs : activate start ≡ (ok active_state, on)
unfolding on
activate_runs = refl

activate_sets_active_example :
    ((get_kill_switch_status " r1 " root on).0 ≡ ok (status_of active_state))
    × (active_state.state ≡ state_active)
    × (active_state.run_id ≡ strip " r1 ")
    × (active_state.last_reason ≡ strip " drill ")
    × (active_state.active_since_utc ≡ some active_state.updated_at_utc)
    × (active_state.cleared_at_utc ≡ none)
unfolding on
activate_sets_active_example =
    activate_sets_active " r1 " " drill " none root artifacts start on active_state Stamps-start
      refl refl

off : World
unfolding activate clear_kill_switch on
off = (clear_kill_switch "r1" "done" (some "ops") root artifacts on).1

abbrev inactive_state : KillSwitchState
inactive_state =
    cleared_state "r1" "done" "ops" "2024-01-01T00:00:00Z" "id" (some "2024-01-01T00:00:00Z")

Stamps-on : Stamps on
unfolding on
Stamps-on = record { clock = λ _. refl; uuids = λ _. refl }

clear_sets_cleared_example :
    ((get_kill_switch_status "r1" root off).0 ≡ ok (status_of inactive_state))
    × (inactive_state.state ≡ state_cleared)
    × (inactive_state.run_id ≡ strip "r1")
    × (inactive_state.last_reason ≡ strip "done")
    × (inactive_state.cleared_at_utc ≡ some inactive_state.updated_at_utc)
    × ((before : KillSwitchStatus) × ((get_kill_switch_status "r1" root on).0 ≡ ok before)
        × (inactive_state.active_since_utc ≡ before.active_since_utc))
unfolding off
clear_sets_cleared_example =
    clear_sets_cleared "r1" "done" (some "ops") root artifacts on off inactive_state Stamps-on refl
      refl

run_ids_differ : strip " r1 " ≢ strip "r2"
unfolding strip
run_ids_differ e = ground (arith, eq_iff "r1" "r2")

activate_isolated_example :
    (get_kill_switch_status "r2" root
      (activate_kill_switch " r1 " "drill" none root artifacts start).1).0
    ≡ (get_kill_switch_status "r2" root start).0
unfolding strip
activate_isolated_example =
    activate_isolated " r1 " "drill" none root artifacts "r2" start refl refl run_ids_differ

clear_isolated_example :
    (get_kill_switch_status "r2" root (clear_kill_switch " r1 " "drill" none root artifacts on).1).0
    ≡ (get_kill_switch_status "r2" root on).0
unfolding strip
clear_isolated_example =
    clear_isolated " r1 " "drill" none root artifacts "r2" on refl refl run_ids_differ

activate_fails : (activate locked).0 ≡ raised kill_switch_read
unfolding activate
activate_fails = refl

activate_failed_example :
    ((get_kill_switch_status " r1 " root (activate locked).1).0
      ≡ (get_kill_switch_status " r1 " root locked).0)
    ⊎ Torn (state_path root (strip " r1 ")) locked (activate locked).1
unfolding activate
activate_failed_example =
    activate_failed " r1 " " drill " none root artifacts locked kill_switch_read activate_fails

clear_fails : (clear_kill_switch "r1" "done" none root artifacts locked).0 ≡ raised kill_switch_read
unfolding activate clear_kill_switch
clear_fails = refl

clear_failed_example :
    ((get_kill_switch_status "r1" root
        (clear_kill_switch "r1" "done" none root artifacts locked).1).0
      ≡ (get_kill_switch_status "r1" root locked).0)
    ⊎ Torn
        (state_path root (strip "r1"))
        locked
        (clear_kill_switch "r1" "done" none root artifacts locked).1
clear_failed_example =
    clear_failed "r1" "done" none root artifacts locked kill_switch_read clear_fails

well_formed : IsWellFormed active_state
well_formed = ground arith

parse_state_payload-state_fields_example :
    parse_state_payload (state_fields active_state) ≡ ok active_state
parse_state_payload-state_fields_example = parse_state_payload-state_fields active_state well_formed

parse_state_payload-IsWellFormed_example : IsWellFormed active_state
parse_state_payload-IsWellFormed_example =
    parse_state_payload-IsWellFormed (state_fields active_state) active_state
      parse_state_payload-state_fields_example

-- A state file whose state is a list: the membership test raises a `TypeError`.
state_is_a_list :
    parse_state_payload (put "state" (arr nil) (state_fields active_state)) ≡ raised type_error
unfolding parse_state_payload state_fields put get
state_is_a_list = refl

parse_state_payload-type_error_example :
    let fs = put "state" (arr nil) (state_fields active_state) in
    (parse_state_payload fs ≡ raised type_error)
    ↔ ((has_all fs state_keys ≡ true) × (is_unhashable (value fs "state") ≡ true))
parse_state_payload-type_error_example =
    parse_state_payload-type_error (put "state" (arr nil) (state_fields active_state))

updated : World
unfolding activate update_artifact_metadata_safety_snapshot build_safety_snapshot path_text loads
    put on
updated = (update_artifact_metadata_safety_snapshot "r1" root artifacts none on).1

update_runs :
    update_artifact_metadata_safety_snapshot "r1" root artifacts none on ≡ (ok true, updated)
unfolding updated
update_runs = refl

update_replaces_safety_example :
    (old new : Fields) × (status : KillSwitchStatus) × (t : String) × (object_at
        (on.entry ("metadata.json" ∷ "r1" ∷ artifacts))
      ≡ some old)
    × (object_at (updated.entry ("metadata.json" ∷ "r1" ∷ artifacts)) ≡ some new)
    × ((get_kill_switch_status "r1" root on).0 ≡ ok status)
    × (get new "safety" ≡ some (obj (snapshot_json status t (path_text root))))
    × (get (snapshot_json status t (path_text root)) "lifecycle_outcome" ≡ none)
    × ((k : String) → k ≢ "safety" → get new k ≡ get old k)
unfolding strip
update_replaces_safety_example =
    update_replaces_safety "r1" root artifacts none on updated update_runs

-- A world in which a write of the state file breaks off with the file empty: the failed activation
-- leaves a file that cannot be read.
abbrev broken : World
broken = record locked {
  left = λ p. if same_path p ("r1.state.json" ∷ root) then some (text "") else none;
}

broken_status : (get_kill_switch_status " r1 " root (activate broken).1).0 ≡ raised kill_switch_read
unfolding activate loads
broken_status = refl

-- Ids with a dot and a slash can name one state file.
same_file : state_path root "./b" ≡ state_path root "x/../b"
same_file = refl
