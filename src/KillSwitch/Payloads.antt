-- ===== src/KillSwitch/Payloads.antt =====
-- The payload classes of safety/kill_switch.py with their JSON forms, and the paths of its files.
use tradingchassis_ops_lab.Base.{String, Option, none, some, ◌∷◌}
use tradingchassis_ops_lab.Base.Json.{Json, str, obj, Fields, end, field, opt_str}
use tradingchassis_ops_lab.World.Effects.{FilePath}
use tradingchassis_ops_lab.World.Paths.{joined_path, suffixed_path}

abbrev pub schema_version_v1 : String
schema_version_v1 = "v1"

abbrev pub event_activated : String
event_activated = "kill_activated"

abbrev pub event_cleared : String
event_cleared = "kill_cleared"

abbrev pub state_active : String
state_active = "active"

abbrev pub state_cleared : String
state_cleared = "cleared"

abbrev pub state_absent : String
state_absent = "absent"

pub record KillSwitchState : Type 0 where
  pub schema_version : String
  pub run_id : String
  pub state : String
  pub updated_at_utc : String
  pub last_event_id : String
  pub last_reason : String
  pub last_actor : String
  pub active_since_utc : Option String
  pub cleared_at_utc : Option String

pub record KillSwitchEvent : Type 0 where
  pub schema_version : String
  pub event_id : String
  pub ts_utc : String
  pub run_id : String
  pub event : String
  pub reason : String
  pub actor : String
  pub source : String
  pub previous_state : String
  pub new_state : String

pub record KillSwitchStatus : Type 0 where
  pub schema_version : String
  pub run_id : String
  pub state : String
  pub updated_at_utc : Option String
  pub last_event_id : Option String
  pub last_reason : Option String
  pub last_actor : Option String
  pub active_since_utc : Option String
  pub cleared_at_utc : Option String

-- `asdict(state)`
unfoldable pub state_fields : KillSwitchState → Fields
state_fields s = field "schema_version" (str s.schema_version) (
    field "run_id" (str s.run_id) (
      field "state" (str s.state) (
        field "updated_at_utc" (str s.updated_at_utc) (
          field "last_event_id" (str s.last_event_id) (
            field "last_reason" (str s.last_reason) (
              field "last_actor" (str s.last_actor) (
                field "active_since_utc" (opt_str s.active_since_utc)
                  (field "cleared_at_utc" (opt_str s.cleared_at_utc) end))))))))

-- `asdict(event)`
unfoldable pub event_json : KillSwitchEvent → Json
event_json e = obj (
    field "schema_version" (str e.schema_version) (
      field "event_id" (str e.event_id) (
        field "ts_utc" (str e.ts_utc) (
          field "run_id" (str e.run_id) (
            field "event" (str e.event) (
              field "reason" (str e.reason) (
                field "actor" (str e.actor) (
                  field "source" (str e.source) (
                    field "previous_state" (str e.previous_state)
                      (field "new_state" (str e.new_state) end))))))))))

-- `KillSwitchStatus(**asdict(state))`
abbrev pub status_of : KillSwitchState → KillSwitchStatus
status_of s = record {
  schema_version = s.schema_version;
  run_id = s.run_id;
  state = s.state;
  updated_at_utc = some s.updated_at_utc;
  last_event_id = some s.last_event_id;
  last_reason = some s.last_reason;
  last_actor = some s.last_actor;
  active_since_utc = s.active_since_utc;
  cleared_at_utc = s.cleared_at_utc;
}

-- The status when there is no state file; the defaults of the class are `None`.
abbrev pub absent_status : String → KillSwitchStatus
absent_status id = record {
  schema_version = schema_version_v1;
  run_id = id;
  state = state_absent;
  updated_at_utc = none;
  last_event_id = none;
  last_reason = none;
  last_actor = none;
  active_since_utc = none;
  cleared_at_utc = none;
}

abbrev pub state_path : FilePath → String → FilePath
state_path runtime_root id = suffixed_path runtime_root id ".state.json"

abbrev pub events_path : FilePath → String → FilePath
events_path runtime_root id = suffixed_path runtime_root id ".events.jsonl"

abbrev pub artifact_journal_path : FilePath → String → FilePath
artifact_journal_path artifacts_root id = "journal.jsonl" ∷ joined_path artifacts_root id

abbrev pub artifact_metadata_path : FilePath → String → FilePath
artifact_metadata_path artifacts_root id = "metadata.json" ∷ joined_path artifacts_root id
