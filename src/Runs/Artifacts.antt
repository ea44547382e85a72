-- ===== src/Runs/Artifacts.antt =====
-- The files of a run directory: `load_run_spec` of runs/spec.py, runs/artifacts.py, runs/hashing.py,
-- runs/metadata.py and runs/journal.py.
use tradingchassis_ops_lab.Base.{String, Bool, Option, none, some, [], ◌∷◌, if◌then◌else◌}
use tradingchassis_ops_lab.Base.Json.{Json, str, obj, Fields, dict}
use tradingchassis_ops_lab.World.Content.{Content, document}
use tradingchassis_ops_lab.World.Effects.{
  FilePath, parent, Result, ok, raised, Action, pure, raise, lift, os_error_as, ◌>>=◌, ◌>>◌, exists,
  read_text, write_text, append_text, mkdir, make_dirs, copy2, resolve, utc_now_iso8601,
  run_spec_load, run_artifacts_exist,
}
use tradingchassis_ops_lab.Runs.Spec.{
  RunSpec, strategy_fields, data_fields, risk_fields, observability_fields,
  run_spec_to_normalized_dict,
}
use tradingchassis_ops_lab.Runs.Validate.{validate_run_spec}

-- What the runs use of other packages. `safe_load` is `yaml.safe_load`, and `none` where it raises
-- or yields a value that is no JSON value; `to_bool` is how pydantic reads a `bool`; `sha256` is
-- the digest of `json.dumps(…, sort_keys=True, separators=(",", ":"))`.
pub record Libraries : Type 0 where
  pub safe_load : Content → Option Json
  pub to_bool : Json → Option Bool
  pub sha256 : Json → String

abbrev or_load_error : {A : Type 0} → Option A → Result A
or_load_error none = raised run_spec_load
or_load_error (some a) = ok a

-- `raw_spec is None`, `isinstance(raw_spec, dict)`
abbrev spec_mapping : Json → Result Json
spec_mapping (obj fs) = ok (obj fs)
spec_mapping _ = raised run_spec_load

unfoldable pub load_run_spec : Libraries → FilePath → Action RunSpec
load_run_spec lib path = do
  contents ← os_error_as run_spec_load (read_text path)
  raw_spec ← lift (or_load_error (lib.safe_load contents))
  mapping ← lift (spec_mapping raw_spec)
  lift (or_load_error (validate_run_spec lib.to_bool mapping))

unfoldable pub compute_config_sha256 : Libraries → RunSpec → String
compute_config_sha256 lib spec = lib.sha256 (obj (run_spec_to_normalized_dict spec))

-- `Path("artifacts/runs")`
abbrev pub default_artifacts_root : FilePath
default_artifacts_root = "runs" ∷ "artifacts" ∷ []

abbrev pub get_run_artifacts_dir : String → FilePath → FilePath
get_run_artifacts_dir run_id artifacts_root = run_id ∷ artifacts_root

unfoldable pub initialize_run_artifacts : FilePath → RunSpec → FilePath → Action FilePath
initialize_run_artifacts spec_path spec artifacts_root = do
  let run_dir = get_run_artifacts_dir spec.run_id artifacts_root
  there ← exists run_dir
  if there then raise run_artifacts_exist else (do
    make_dirs (parent run_dir)
    mkdir run_dir
    copy2 spec_path ("run_spec.yaml" ∷ run_dir)
    pure run_dir)

unfoldable pub build_initial_metadata : RunSpec → FilePath → FilePath → String → Action Fields
build_initial_metadata spec spec_path artifacts_dir config_sha256 = do
  created_at ← utc_now_iso8601
  spec_resolved ← resolve spec_path
  dir_resolved ← resolve artifacts_dir
  pure (
      dict (
        ("schema_version", str "v1")
        ∷ ("run_id", str spec.run_id)
        ∷ ("mode", str spec.mode)
        ∷ ("engine", str spec.engine)
        ∷ ("status", str "initialized")
        ∷ ("created_at_utc", str created_at)
        ∷ ("spec_path", str spec_resolved)
        ∷ ("artifacts_dir", str dir_resolved)
        ∷ ("config_sha256", str config_sha256)
        ∷ ("venue", str spec.venue)
        ∷ ("instrument", str spec.instrument)
        ∷ ("strategy", obj (strategy_fields spec.strategy))
        ∷ ("data", obj (data_fields spec.data_spec))
        ∷ ("risk", obj (risk_fields spec.risk))
        ∷ ("observability", obj (observability_fields spec.observability))
        ∷ []))

unfoldable pub write_metadata : FilePath → Fields → Action (Unit {0})
write_metadata path metadata = write_text path (document (obj metadata))

unfoldable pub build_run_initialized_event : RunSpec → FilePath → FilePath → String → Action Fields
build_run_initialized_event spec spec_path artifacts_dir config_sha256 = do
  ts ← utc_now_iso8601
  spec_resolved ← resolve spec_path
  dir_resolved ← resolve artifacts_dir
  pure (
      dict (
        ("ts_utc", str ts)
        ∷ ("event", str "run_initialized")
        ∷ ("run_id", str spec.run_id)
        ∷ ("mode", str spec.mode)
        ∷ ("engine", str spec.engine)
        ∷ ("status", str "initialized")
        ∷ ("config_sha256", str config_sha256)
        ∷ ("spec_path", str spec_resolved)
        ∷ ("artifacts_dir", str dir_resolved)
        ∷ []))

unfoldable pub append_journal_event : FilePath → Fields → Action (Unit {0})
append_journal_event path event = append_text path (obj event)
