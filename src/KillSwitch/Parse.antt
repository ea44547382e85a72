-- ===== src/KillSwitch/Parse.antt =====
-- `_parse_state_payload`, and its agreement with the payload that is written.
use tradingchassis_ops_lab.Base.{
  String, Bool, true, false, ◌&&◌, Option, none, some, List, [], ◌∷◌, ◌≡◌, ◌↔◌, refl, ◌⊎◌,
  if◌then◌else◌, contains, is_empty, eq_iff, arith,
}
use tradingchassis_ops_lab.Base.Json.{
  Json, null, str, arr, obj, Fields, get, has_all, opt_str, is_str_truthy, is_text,
}
use tradingchassis_ops_lab.World.Effects.{Result, ok, raised, kill_switch_read, type_error}
use tradingchassis_ops_lab.KillSwitch.Payloads.{
  KillSwitchState, state_fields, schema_version_v1, state_active, state_cleared,
}

-- `payload[k]`, behind the test that the key is there.
abbrev pub value : Fields → String → Json
value fs k = elim (get fs k) [ none ↦ null | some v ↦ v ]

-- `value in {…}` for a set of texts: a list or an object has no hash.
abbrev pub in_texts : List String → Json → Result Bool
in_texts ts (str s) = ok (contains ts s)
in_texts ts (arr _) = raised type_error
in_texts ts (obj _) = raised type_error
in_texts ts _ = ok false

abbrev pub state_keys : List String
state_keys =
    "schema_version" ∷ "run_id" ∷ "state" ∷ "updated_at_utc" ∷ "last_event_id" ∷ "last_reason"
    ∷ "last_actor" ∷ "active_since_utc" ∷ "cleared_at_utc" ∷ []

-- `isinstance(payload[key], str) and payload[key]` for each key
abbrev all_truthy : Fields → List String → Bool
all_truthy fs [] = true
all_truthy fs (k ∷ ks) = is_str_truthy (value fs k) && all_truthy fs ks

-- `payload[key] is None or isinstance(payload[key], str)`
abbrev is_opt_str : Json → Bool
is_opt_str null = true
is_opt_str (str _) = true
is_opt_str _ = false

-- `str(payload[key])` behind the test that it is a text.
abbrev text_of : Json → String
text_of (str s) = s
text_of _ = ""

abbrev opt_text_of : Json → Option String
opt_text_of (str s) = some s
opt_text_of _ = none

state_of : Fields → KillSwitchState
state_of fs = record {
  schema_version = schema_version_v1;
  run_id = text_of (value fs "run_id");
  state = text_of (value fs "state");
  updated_at_utc = text_of (value fs "updated_at_utc");
  last_event_id = text_of (value fs "last_event_id");
  last_reason = text_of (value fs "last_reason");
  last_actor = text_of (value fs "last_actor");
  active_since_utc = opt_text_of (value fs "active_since_utc");
  cleared_at_utc = opt_text_of (value fs "cleared_at_utc");
}

-- The tests after the one of the state, in their order; all raise the same class.
rest_is_valid : Fields → Bool
rest_is_valid fs =
    is_text (value fs "schema_version") schema_version_v1
    && all_truthy fs
        ("run_id" ∷ "updated_at_utc" ∷ "last_event_id" ∷ "last_reason" ∷ "last_actor" ∷ [])
    && is_opt_str (value fs "active_since_utc")
    && is_opt_str (value fs "cleared_at_utc")

unfoldable pub parse_state_payload : Fields → Result KillSwitchState
unfolding rest_is_valid state_of
parse_state_payload fs =
    if has_all fs state_keys
    then elim (in_texts (state_active ∷ state_cleared ∷ []) (value fs "state")) [
      | raised e ↦ raised e
      | ok false ↦ raised kill_switch_read
      | ok true ↦ if rest_is_valid fs then ok (state_of fs) else raised kill_switch_read
    ]
    else raised kill_switch_read

-- What a state file may say: the schema, one of two states, and no blank text.
pub record IsWellFormed (s : KillSwitchState) : Type 0 where
  pub schema : s.schema_version ≡ schema_version_v1
  pub known : (s.state ≡ state_active) ⊎ (s.state ≡ state_cleared)
  pub has_run_id : is_empty s.run_id ≡ false
  pub has_updated : is_empty s.updated_at_utc ≡ false
  pub has_event : is_empty s.last_event_id ≡ false
  pub has_reason : is_empty s.last_reason ≡ false
  pub has_actor : is_empty s.last_actor ≡ false

opt_text_of-opt_str : (o : Option String) → opt_text_of (opt_str o) ≡ o
opt_text_of-opt_str none = refl
opt_text_of-opt_str (some s) = refl

is_opt_str-opt_str : (o : Option String) → is_opt_str (opt_str o) ≡ true
is_opt_str-opt_str none = refl
is_opt_str-opt_str (some s) = refl

-- A well-formed state that is written and parsed again is the same state.
pub parse_state_payload-state_fields :
    (s : KillSwitchState) → IsWellFormed s → parse_state_payload (state_fields s) ≡ ok s
unfolding parse_state_payload state_fields get
parse_state_payload-state_fields s h = ground (
  arith,
  opt_text_of-opt_str s.active_since_utc,
  opt_text_of-opt_str s.cleared_at_utc,
  is_opt_str-opt_str s.active_since_utc,
  is_opt_str-opt_str s.cleared_at_utc,
  eq_iff s.state "active",
  eq_iff s.state "cleared",
  eq_iff s.schema_version "v1",
)

-- A state that the parser accepts is well-formed.
pub parse_state_payload-IsWellFormed :
    (fs : Fields) (s : KillSwitchState) → parse_state_payload fs ≡ ok s → IsWellFormed s
unfolding parse_state_payload
parse_state_payload-IsWellFormed fs s h = ground (
  arith,
  eq_iff (text_of (value fs "state")) "active",
  eq_iff (text_of (value fs "state")) "cleared",
)

-- A list or an object, which Python cannot hash.
abbrev pub is_unhashable : Json → Bool
is_unhashable (arr _) = true
is_unhashable (obj _) = true
is_unhashable _ = false

-- The parser raises a `TypeError` exactly on a payload that has every key and a list or an object
-- as its state.
pub parse_state_payload-type_error :
    (fs : Fields)
    → (parse_state_payload fs ≡ raised type_error)
      ↔ ((has_all fs state_keys ≡ true) × (is_unhashable (value fs "state") ≡ true))
unfolding parse_state_payload
parse_state_payload-type_error fs = ground arith
