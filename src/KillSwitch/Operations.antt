-- ===== src/KillSwitch/Operations.antt =====
-- The operations of safety/kill_switch.py: status, activation, clearing, and the snapshot that
-- run metadata carries.
use tradingchassis_ops_lab.Base.{
  String, ◌<>◌, [], Bool, true, false, Option, none, some, ◌∷◌, if◌then◌else◌, strip, is_empty,
}
use tradingchassis_ops_lab.Base.Json.{Json, str, obj, Fields, end, field, put, opt_str}
use tradingchassis_ops_lab.World.Content.{document}
use tradingchassis_ops_lab.World.Effects.{
  FilePath, parent, Result, ok, raised, Action, pure, raise, lift, os_error_as, ◌>>=◌, ◌>>◌, exists,
  is_file, is_dir, read_json, write_text, append_text, make_dirs, utc_now_iso8601, uuid4,
  kill_switch_validation, kill_switch_read,
}
use tradingchassis_ops_lab.KillSwitch.Payloads.{
  KillSwitchState, KillSwitchEvent, KillSwitchStatus, state_fields, event_json, status_of,
  absent_status, schema_version_v1, event_activated, event_cleared, state_active, state_cleared,
  state_path, events_path, artifact_journal_path, artifact_metadata_path,
}
use tradingchassis_ops_lab.KillSwitch.Parse.{parse_state_payload}

unfoldable pub validate_run_id : String → Result String
validate_run_id run_id =
    if is_empty (strip run_id) then raised kill_switch_validation else ok (strip run_id)

unfoldable pub validate_reason : String → Result String
validate_reason reason =
    if is_empty (strip reason) then raised kill_switch_validation else ok (strip reason)

-- `a or b` for texts
abbrev pub or_text : String → String → String
or_text a b = if is_empty a then b else a

-- `os.environ.get("USER", "").strip() or "unknown"`
abbrev pub user_or_unknown : Option String → String
user_or_unknown none = "unknown"
user_or_unknown (some user) = or_text (strip user) "unknown"

unfoldable pub resolve_actor : Option String → Action String
resolve_actor none w = (ok (user_or_unknown (w.env "USER")), w)
resolve_actor (some actor) w = (ok (or_text (strip actor) (user_or_unknown (w.env "USER"))), w)

unfoldable pub write_state : FilePath → KillSwitchState → Action (Unit {0})
write_state path state =
    os_error_as kill_switch_read
      (make_dirs (parent path) >> write_text path (document (obj (state_fields state))))

unfoldable pub append_event : FilePath → KillSwitchEvent → Action (Unit {0})
append_event path event =
    os_error_as kill_switch_read (make_dirs (parent path) >> append_text path (event_json event))

unfoldable pub append_optional_artifact_journal_event :
    FilePath → KillSwitchEvent → Action (Unit {0})
append_optional_artifact_journal_event path event = do
  there ← exists path
  if there
      then (do
        regular ← is_file path
        if regular
            then os_error_as kill_switch_read (append_text path (event_json event))
            else raise kill_switch_read)
      else pure tt

-- `isinstance(payload, dict)`
abbrev pub as_object : Json → Result Fields
as_object (obj fs) = ok fs
as_object _ = raised kill_switch_read

unfoldable pub read_state : FilePath → Action KillSwitchState
read_state state_file = do
  raw_payload ← read_json kill_switch_read state_file
  fs ← lift (as_object raw_payload)
  lift (parse_state_payload fs)

unfoldable pub get_kill_switch_status : String → FilePath → Action KillSwitchStatus
get_kill_switch_status run_id runtime_root = do
  id ← lift (validate_run_id run_id)
  there ← exists (state_path runtime_root id)
  if there
      then (do state ← read_state (state_path runtime_root id); pure (status_of state))
      else pure (absent_status id)

-- What `activate_kill_switch` writes.
abbrev pub activated_event : String → String → String → String → String → String → KillSwitchEvent
activated_event id reason actor previous_state ts event_id = record {
  schema_version = schema_version_v1;
  event_id = event_id;
  ts_utc = ts;
  run_id = id;
  event = event_activated;
  reason = reason;
  actor = actor;
  source = "tc";
  previous_state = previous_state;
  new_state = state_active;
}

abbrev pub activated_state : String → String → String → String → String → KillSwitchState
activated_state id reason actor ts event_id = record {
  schema_version = schema_version_v1;
  run_id = id;
  state = state_active;
  updated_at_utc = ts;
  last_event_id = event_id;
  last_reason = reason;
  last_actor = actor;
  active_since_utc = some ts;
  cleared_at_utc = none;
}

unfoldable pub activate_kill_switch :
    String → String → Option String → FilePath → FilePath → Action KillSwitchState
activate_kill_switch run_id reason actor runtime_root artifacts_root = do
  id ← lift (validate_run_id run_id)
  normalized_reason ← lift (validate_reason reason)
  resolved_actor ← resolve_actor actor
  status ← get_kill_switch_status id runtime_root
  ts ← utc_now_iso8601
  event_id ← uuid4
  let event = activated_event id normalized_reason resolved_actor status.state ts event_id
  append_event (events_path runtime_root id) event
  append_optional_artifact_journal_event (artifact_journal_path artifacts_root id) event
  let state = activated_state id normalized_reason resolved_actor ts event_id
  write_state (state_path runtime_root id) state
  pure state

-- What `clear_kill_switch` writes.
abbrev pub cleared_event : String → String → String → String → String → String → KillSwitchEvent
cleared_event id reason actor previous_state ts event_id = record {
  schema_version = schema_version_v1;
  event_id = event_id;
  ts_utc = ts;
  run_id = id;
  event = event_cleared;
  reason = reason;
  actor = actor;
  source = "tc";
  previous_state = previous_state;
  new_state = state_cleared;
}

abbrev pub cleared_state :
    String → String → String → String → String → Option String → KillSwitchState
cleared_state id reason actor ts event_id active_since = record {
  schema_version = schema_version_v1;
  run_id = id;
  state = state_cleared;
  updated_at_utc = ts;
  last_event_id = event_id;
  last_reason = reason;
  last_actor = actor;
  active_since_utc = active_since;
  cleared_at_utc = some ts;
}

unfoldable pub clear_kill_switch :
    String → String → Option String → FilePath → FilePath → Action KillSwitchState
clear_kill_switch run_id reason actor runtime_root artifacts_root = do
  id ← lift (validate_run_id run_id)
  normalized_reason ← lift (validate_reason reason)
  resolved_actor ← resolve_actor actor
  status ← get_kill_switch_status id runtime_root
  ts ← utc_now_iso8601
  event_id ← uuid4
  let event = cleared_event id normalized_reason resolved_actor status.state ts event_id
  append_event (events_path runtime_root id) event
  append_optional_artifact_journal_event (artifact_journal_path artifacts_root id) event
  let state = cleared_state id normalized_reason resolved_actor ts event_id status.active_since_utc
  write_state (state_path runtime_root id) state
  pure state

-- `str(runtime_root)` is a text that the caller gives along with the path.
abbrev pub snapshot_json : KillSwitchStatus → String → String → Fields
snapshot_json status checked_at source =
    field "kill_switch"
      (obj (
        field "state" (str status.state) (
          field "checked_at_utc" (str checked_at)
            (field "last_reason" (opt_str status.last_reason) (field "source" (str source) end)))))
      end

-- `checked_at_utc or _utc_now_iso8601()`
abbrev pub checked_at_or_now : Option String → Action String
checked_at_or_now none = utc_now_iso8601
checked_at_or_now (some t) = if is_empty t then utc_now_iso8601 else pure t

-- `str(path)`: the names joined by slashes.
unfoldable pub path_text : FilePath → String
path_text [] = "."
path_text (s ∷ []) = s
path_text (s ∷ p) = path_text p <> "/" <> s

unfoldable pub build_safety_snapshot : String → FilePath → Option String → Action Fields
unfolding path_text
build_safety_snapshot run_id runtime_root checked_at_utc = do
  status ← get_kill_switch_status run_id runtime_root
  checked_at ← checked_at_or_now checked_at_utc
  pure (snapshot_json status checked_at (path_text runtime_root))

unfoldable pub update_artifact_metadata_safety_snapshot :
    String → FilePath → FilePath → Option String → Action Bool
update_artifact_metadata_safety_snapshot run_id runtime_root artifacts_root checked_at_utc = do
  id ← lift (validate_run_id run_id)
  has_run_dir ← is_dir (id ∷ artifacts_root)
  if has_run_dir
      then (do
        let metadata_path = artifact_metadata_path artifacts_root id
        there ← exists metadata_path
        if there
            then (do
              regular ← is_file metadata_path
              if regular
                  then (do
                    payload ← read_json kill_switch_read metadata_path
                    metadata ← lift (as_object payload)
                    safety ← build_safety_snapshot id runtime_root checked_at_utc
                    os_error_as kill_switch_read (
                        write_text metadata_path
                          (document (obj (put "safety" (obj safety) metadata))))
                    pure true)
                  else raise kill_switch_read)
            else pure false)
      else pure false
