-- ===== src/Runs/Validate.antt =====
-- The validators of runs/spec.py and `load_run_spec`. `yaml.safe_load` and the way pydantic reads
-- a `bool` are third-party code, and parameters. A failed validation is `none`.
use Prim.Native.Char.{code}
use tradingchassis_ops_lab.Base.{
  ℕ, String, Bool, true, false, not, ◌&&◌, ◌||◌, Option, none, some, List, [], ◌∷◌, if◌then◌else◌,
  ◌==◌, leb, eqb, strip, is_empty, contains,
}
use tradingchassis_ops_lab.Base.Json.{
  Json, null, str, arr, obj, Items, nil, cons, Fields, end, field, get,
}
use tradingchassis_ops_lab.Runs.Spec.{
  StrategySpec, DataSpec, RiskSpec, ObservabilitySpec, CredentialPlaceholdersSpec,
  ConnectivityReadinessSpec, RunSpec,
}

infixl 5 ◌>>=◌
unfoldable pub ◌>>=◌ : {A B : Type 0} → Option A → (A → Option B) → Option B
none >>= f = none
some a >>= f = f a

-- Every key of the object is a field of the model: `extra="forbid"`.
unfoldable pub keys_within : List String → Fields → Bool
keys_within ks end = true
keys_within ks (field k _ fs) = contains ks k && keys_within ks fs

-- A model is read from a dictionary with known keys.
unfoldable pub as_model : List String → Json → Option Fields
as_model ks (obj fs) = if keys_within ks fs then some fs else none
as_model ks _ = none

-- A text that is trimmed and must not be empty.
unfoldable pub validate_non_empty : Json → Option String
validate_non_empty (str s) = if is_empty (strip s) then none else some (strip s)
validate_non_empty _ = none

-- A text or null; a blank text is null.
unfoldable pub normalize_optional : Json → Option (Option String)
normalize_optional null = some none
normalize_optional (str s) = if is_empty (strip s) then some none else some (some (strip s))
normalize_optional _ = none

-- `Literal[…]`
unfoldable pub literal : List String → Json → Option String
literal ts (str s) = if contains ts s then some s else none
literal ts _ = none

-- `Literal[…] | None`
unfoldable pub optional_literal : List String → Json → Option (Option String)
optional_literal ts null = some none
optional_literal ts (str s) = if contains ts s then some (some s) else none
optional_literal ts _ = none

-- A field with a default: the validator runs only on a value that is given.
unfoldable pub or_default : {A : Type 0} → Option Json → A → (Json → Option A) → Option A
or_default none d f = some d
or_default (some v) d f = f v

unfoldable pub validate_strategy : Json → Option StrategySpec
validate_strategy v = do
  fs ← as_model ("name" ∷ "version" ∷ []) v
  name ← get fs "name" >>= validate_non_empty
  version ← get fs "version" >>= validate_non_empty
  some (record { name = name; version = version })

unfoldable pub validate_data : Json → Option DataSpec
validate_data v = do
  fs ← as_model ("dataset" ∷ "fingerprint" ∷ []) v
  dataset ← get fs "dataset" >>= validate_non_empty
  fingerprint ← or_default (get fs "fingerprint") none normalize_optional
  some (record { dataset = dataset; fingerprint = fingerprint })

unfoldable pub validate_risk : Json → Option RiskSpec
validate_risk v = do
  fs ← as_model ("profile" ∷ []) v
  profile ← get fs "profile" >>= validate_non_empty
  some (record { profile = profile })

-- `[A-Z_]` and `[A-Z0-9_]`
is_name_start : ℕ → Bool
is_name_start c = (leb b'A' c && leb c b'Z') || eqb c b'_'

is_name_char : ℕ → Bool
is_name_char c = is_name_start c || (leb b'0' c && leb c b'9')

all_name_chars : String → Bool
all_name_chars String.[] = true
all_name_chars (String.◌∷◌ c s) = is_name_char (code c) && all_name_chars s

-- `^[A-Z_][A-Z0-9_]*$`, on a trimmed text
unfoldable pub is_env_var_name : String → Bool
unfolding is_name_start is_name_char all_name_chars
is_env_var_name String.[] = false
is_env_var_name (String.◌∷◌ c s) = is_name_start (code c) && all_name_chars s

unfoldable pub validate_env_name : Json → Option String
validate_env_name (str s) =
    if is_empty (strip s) then none else if is_env_var_name (strip s) then some (strip s) else none
validate_env_name _ = none

unfoldable pub validate_env_names : Items → Option (List String)
validate_env_names nil = some []
validate_env_names (cons v vs) = do
  name ← validate_env_name v
  names ← validate_env_names vs
  some (name ∷ names)

unfoldable pub validate_env_name_list : Json → Option (List String)
unfolding validate_env_names
validate_env_name_list null = some []
validate_env_name_list (arr vs) = validate_env_names vs
validate_env_name_list _ = none

-- `len(names) == len(set(names))`
unfoldable pub no_duplicates : List String → Bool
no_duplicates [] = true
no_duplicates (x ∷ xs) = not (contains xs x) && no_duplicates xs

-- `set(xs) & set(ys)` is empty.
unfoldable pub disjoint : List String → List String → Bool
disjoint [] ys = true
disjoint (x ∷ xs) ys = not (contains ys x) && disjoint xs ys

unfoldable pub check_duplicates_and_overlap :
    CredentialPlaceholdersSpec → Option CredentialPlaceholdersSpec
unfolding no_duplicates disjoint
check_duplicates_and_overlap c =
    if no_duplicates c.required_env
      && no_duplicates c.optional_env
      && disjoint c.required_env c.optional_env
    then some c
    else none

unfoldable pub validate_placeholders : Json → Option CredentialPlaceholdersSpec
validate_placeholders v = do
  fs ← as_model ("required_env" ∷ "optional_env" ∷ []) v
  required ← or_default (get fs "required_env") [] validate_env_name_list
  optional ← or_default (get fs "optional_env") [] validate_env_name_list
  check_duplicates_and_overlap (record { required_env = required; optional_env = optional })

-- The two name lists of `CredentialPlaceholdersSpec()`.
abbrev pub no_placeholders : CredentialPlaceholdersSpec
no_placeholders = record { required_env = []; optional_env = [] }

-- `connectivity_readiness.venue must match top-level venue when provided`
unfoldable pub venue_matches : Option ConnectivityReadinessSpec → String → Bool
venue_matches none venue = true
venue_matches (some c) venue = elim c.venue [ none ↦ true | some v ↦ v == venue ]

-- How pydantic reads a value where a model has a `bool`.
module _ (to_bool : Json → Option Bool) where
  unfoldable pub validate_observability : Json → Option ObservabilitySpec
  validate_observability v = do
    fs ← as_model ("journal" ∷ "metrics" ∷ "report" ∷ []) v
    journal ← or_default (get fs "journal") true to_bool
    metrics ← or_default (get fs "metrics") false to_bool
    report ← or_default (get fs "report") false to_bool
    some (record { journal = journal; metrics = metrics; report = report })

  unfoldable pub validate_readiness : Json → Option ConnectivityReadinessSpec
  validate_readiness v = do
    fs ← as_model ("enabled" ∷ "target" ∷ "venue" ∷ "credential_placeholders" ∷ "notes" ∷ []) v
    enabled ← or_default (get fs "enabled") false to_bool
    target ← or_default (get fs "target") none (optional_literal ("paper_testnet_probe" ∷ []))
    venue ← or_default (get fs "venue") none normalize_optional
    placeholders ←
        or_default (get fs "credential_placeholders") no_placeholders validate_placeholders
    notes ← or_default (get fs "notes") none normalize_optional
    some (record {
      enabled = enabled;
      target = target;
      venue = venue;
      credential_placeholders = placeholders;
      notes = notes;
    })

  -- `ConnectivityReadinessSpec | None`
  unfoldable pub validate_optional_readiness : Json → Option (Option ConnectivityReadinessSpec)
  validate_optional_readiness null = some none
  validate_optional_readiness v = validate_readiness v >>= λ c. some (some c)

  -- `RunSpec.model_validate`
  unfoldable pub validate_run_spec : Json → Option RunSpec
  unfolding validate_strategy validate_data validate_risk validate_observability
  validate_run_spec v = do
    fs ←
        as_model
          ("spec_version" ∷ "run_id" ∷ "mode" ∷ "engine" ∷ "venue" ∷ "instrument" ∷ "strategy"
            ∷ "data" ∷ "risk" ∷ "observability" ∷ "connectivity_readiness" ∷ [])
          v
    spec_version ← get fs "spec_version" >>= literal ("v1" ∷ [])
    run_id ← get fs "run_id" >>= validate_non_empty
    mode ← get fs "mode" >>= literal ("backtest" ∷ "paper" ∷ [])
    engine ← get fs "engine" >>= literal ("nautilus" ∷ [])
    venue ← get fs "venue" >>= validate_non_empty
    instrument ← get fs "instrument" >>= validate_non_empty
    strategy ← get fs "strategy" >>= validate_strategy
    data_spec ← get fs "data" >>= validate_data
    risk ← get fs "risk" >>= validate_risk
    observability ← get fs "observability" >>= validate_observability
    readiness ← or_default (get fs "connectivity_readiness") none validate_optional_readiness
    if venue_matches readiness venue
        then some (record {
          spec_version = spec_version;
          run_id = run_id;
          mode = mode;
          engine = engine;
          venue = venue;
          instrument = instrument;
          strategy = strategy;
          data_spec = data_spec;
          risk = risk;
          observability = observability;
          connectivity_readiness = readiness;
        })
        else none
