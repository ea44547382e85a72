-- ===== src/KillSwitch/Status.antt =====
-- What `get_kill_switch_status` returns, by the entry at the state path.
use tradingchassis_ops_lab.Base.{
  String, Bool, true, false, ◌≡◌, Option, some, strip, strip_idem, is_empty, arith, if◌then◌else◌,
}
use tradingchassis_ops_lab.Base.Json.{Json, obj}
use tradingchassis_ops_lab.World.Content.{Content, document, undecodable, loads}
use tradingchassis_ops_lab.World.Effects.{
  FilePath, World, Result, ok, raised, file, absent, dir, Entry, unicode_error, kill_switch_read,
  kill_switch_validation, ◌>>=◌, exists, read_json, read_text,
}
use tradingchassis_ops_lab.World.Frame.{Same}
use tradingchassis_ops_lab.KillSwitch.Payloads.{
  KillSwitchState, KillSwitchStatus, state_fields, status_of, state_path, absent_status,
}
use tradingchassis_ops_lab.KillSwitch.Parse.{
  parse_state_payload, parse_state_payload-state_fields, IsWellFormed,
}
use tradingchassis_ops_lab.KillSwitch.Operations.{
  validate_run_id, read_state, get_kill_switch_status,
}

-- The id that the files of a run are named by.
pub validate_run_id-strip :
    (run_id : String) → validate_run_id (strip run_id) ≡ validate_run_id run_id
unfolding validate_run_id
validate_run_id-strip run_id = rw strip_idem

pub eq_strip_of_validate_run_id :
    (run_id id : String) → validate_run_id run_id ≡ ok id → id ≡ strip run_id
unfolding validate_run_id
eq_strip_of_validate_run_id run_id id h = ground arith

abbrev to_status : Result KillSwitchState → Result KillSwitchStatus
to_status (ok s) = ok (status_of s)
to_status (raised e) = raised e

abbrev status_of_json : Option Json → Result KillSwitchStatus
status_of_json (some (obj fs)) = to_status (parse_state_payload fs)
status_of_json _ = raised kill_switch_read

abbrev status_of_content : Content → Result KillSwitchStatus
status_of_content undecodable = raised unicode_error
status_of_content c = status_of_json (loads c)

-- The status by what stands at the state path: `absent` if nothing does, and otherwise what a
-- readable file says.
abbrev pub status_at : String → Bool → Entry → Result KillSwitchStatus
status_at id unreadable absent = ok (absent_status id)
status_at id unreadable dir = raised kill_switch_read
status_at id true (file c) = raised kill_switch_read
status_at id false (file c) = status_of_content c

-- The status is a function of the entry at the state path and of the right to read it.
pub get_kill_switch_status-eq :
    (run_id : String) (root : FilePath) (w : World)
    → let path = state_path root (strip run_id) in
      (get_kill_switch_status run_id root w).0 ≡ (
        if is_empty (strip run_id)
        then raised kill_switch_validation
        else status_at (strip run_id) (w.unreadable path) (w.entry path))
unfolding get_kill_switch_status read_state read_json read_text validate_run_id exists ◌>>=◌
get_kill_switch_status-eq run_id root w = ground arith

pub status-Same :
    (run_id : String) (root : FilePath) (w w' : World)
    → Same (state_path root (strip run_id)) w w'
    → (get_kill_switch_status run_id root w').0 ≡ (get_kill_switch_status run_id root w).0
status-Same run_id root w w' h =
    ground
      (arith, get_kill_switch_status-eq run_id root w, get_kill_switch_status-eq run_id root w')

-- White space around the run id makes no difference.
pub get_kill_switch_status-strip :
    (run_id : String) (root : FilePath) (w : World)
    → (get_kill_switch_status (strip run_id) root w).0 ≡ (get_kill_switch_status run_id root w).0
unfolding get_kill_switch_status validate_run_id
get_kill_switch_status-strip run_id root w = rw strip_idem

-- A well-formed state in a readable file is the status.
pub status_of_file :
    (run_id : String) (root : FilePath) (s : KillSwitchState) (w : World)
    → is_empty (strip run_id) ≡ false
    → w.unreadable (state_path root (strip run_id)) ≡ false
    → w.entry (state_path root (strip run_id)) ≡ file (document (obj (state_fields s)))
    → IsWellFormed s
    → (get_kill_switch_status run_id root w).0 ≡ ok (status_of s)
unfolding get_kill_switch_status read_state read_json read_text validate_run_id exists ◌>>=◌
status_of_file run_id root s w named readable written h =
    ground (arith, parse_state_payload-state_fields s h)
