-- ===== src/Runs/Spec.antt =====
-- The models of runs/spec.py, and their form as a dictionary.
use tradingchassis_ops_lab.Base.{String, Bool, Option, none, some, List, map}
use tradingchassis_ops_lab.Base.Json.{
  Json, null, bool, str, arr, obj, Fields, end, field, items_of, opt_str,
}

pub record StrategySpec : Type 0 where
  pub name : String
  pub version : String

pub record DataSpec : Type 0 where
  pub dataset : String
  pub fingerprint : Option String

pub record RiskSpec : Type 0 where
  pub profile : String

pub record ObservabilitySpec : Type 0 where
  pub journal : Bool
  pub metrics : Bool
  pub report : Bool

pub record CredentialPlaceholdersSpec : Type 0 where
  pub required_env : List String
  pub optional_env : List String

pub record ConnectivityReadinessSpec : Type 0 where
  pub enabled : Bool
  pub target : Option String
  pub venue : Option String
  pub credential_placeholders : CredentialPlaceholdersSpec
  pub notes : Option String

pub record RunSpec : Type 0 where
  pub spec_version : String
  pub run_id : String
  pub mode : String
  pub engine : String
  pub venue : String
  pub instrument : String
  pub strategy : StrategySpec
  pub data_spec : DataSpec
  pub risk : RiskSpec
  pub observability : ObservabilitySpec
  pub connectivity_readiness : Option ConnectivityReadinessSpec

-- `model_dump(mode="json", exclude_none=False)`, model by model
unfoldable pub strategy_fields : StrategySpec → Fields
strategy_fields s = field "name" (str s.name) (field "version" (str s.version) end)

unfoldable pub data_fields : DataSpec → Fields
data_fields d = field "dataset" (str d.dataset) (field "fingerprint" (opt_str d.fingerprint) end)

unfoldable pub risk_fields : RiskSpec → Fields
risk_fields r = field "profile" (str r.profile) end

unfoldable pub observability_fields : ObservabilitySpec → Fields
observability_fields o =
    field "journal" (bool o.journal)
      (field "metrics" (bool o.metrics) (field "report" (bool o.report) end))

unfoldable pub names_json : List String → Json
names_json names = arr (items_of (map str names))

unfoldable pub placeholders_fields : CredentialPlaceholdersSpec → Fields
placeholders_fields c =
    field "required_env" (names_json c.required_env)
      (field "optional_env" (names_json c.optional_env) end)

unfoldable pub readiness_fields : ConnectivityReadinessSpec → Fields
readiness_fields c = field "enabled" (bool c.enabled) (
    field "target" (opt_str c.target) (
      field "venue" (opt_str c.venue) (
        field "credential_placeholders" (obj (placeholders_fields c.credential_placeholders))
          (field "notes" (opt_str c.notes) end))))

unfoldable pub readiness_json : Option ConnectivityReadinessSpec → Json
readiness_json none = null
readiness_json (some c) = obj (readiness_fields c)

-- `run_spec_to_normalized_dict`
unfoldable pub run_spec_to_normalized_dict : RunSpec → Fields
run_spec_to_normalized_dict s = field "spec_version" (str s.spec_version) (
    field "run_id" (str s.run_id) (
      field "mode" (str s.mode) (
        field "engine" (str s.engine) (
          field "venue" (str s.venue) (
            field "instrument" (str s.instrument) (
              field "strategy" (obj (strategy_fields s.strategy)) (
                field "data" (obj (data_fields s.data_spec)) (
                  field "risk" (obj (risk_fields s.risk)) (
                    field "observability" (obj (observability_fields s.observability)) (
                      field "connectivity_readiness" (readiness_json s.connectivity_readiness)
                        end))))))))))
