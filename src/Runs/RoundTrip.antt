-- ===== src/Runs/RoundTrip.antt =====
-- The dictionary form of a run specification, read back.
use tradingchassis_ops_lab.Base.{
  String, Bool, Option, none, some, List, [], ◌∷◌, map, ◌≡◌, ◌⊎◌, inl, inr, refl, eq_self,
}
use tradingchassis_ops_lab.Base.Json.{Json, bool, str, obj, get, items_of, opt_str}
use tradingchassis_ops_lab.Runs.Spec.{
  StrategySpec, DataSpec, RiskSpec, ObservabilitySpec, CredentialPlaceholdersSpec,
  ConnectivityReadinessSpec, RunSpec, strategy_fields, data_fields, risk_fields,
  observability_fields, names_json, placeholders_fields, readiness_fields, readiness_json,
  run_spec_to_normalized_dict,
}
use tradingchassis_ops_lab.Runs.Validate.{
  ◌>>=◌, keys_within, as_model, or_default, literal, optional_literal, validate_non_empty,
  normalize_optional, validate_strategy, validate_data, validate_risk, validate_observability,
  validate_env_name, validate_env_names, validate_env_name_list, check_duplicates_and_overlap,
  validate_placeholders, validate_readiness, validate_optional_readiness, validate_run_spec,
}
use tradingchassis_ops_lab.Runs.Valid.{
  IsTrimmed, IsTrimmedOption, AllNames, IsValidPlaceholders, IsValidReadiness,
  IsValidReadinessOption, IsValidSpec,
}

validate_non_empty-str : {s : String} → IsTrimmed s → validate_non_empty (str s) ≡ some s
unfolding validate_non_empty
validate_non_empty-str h = rw h.trimmed (rw h.full refl)

normalize_optional-opt_str :
    (o : Option String) → IsTrimmedOption o → normalize_optional (opt_str o) ≡ some o
unfolding normalize_optional
normalize_optional-opt_str none h = refl
normalize_optional-opt_str (some s) h = rw h.trimmed (rw h.full refl)

validate_strategy-fields :
    (s : StrategySpec)
    → IsTrimmed s.name
    → IsTrimmed s.version
    → validate_strategy (obj (strategy_fields s)) ≡ some s
unfolding validate_strategy strategy_fields as_model keys_within ◌>>=◌ get
validate_strategy-fields s hn hv =
    rw (validate_non_empty-str hn) (rw (validate_non_empty-str hv) refl)

validate_data-fields :
    (d : DataSpec)
    → IsTrimmed d.dataset
    → IsTrimmedOption d.fingerprint
    → validate_data (obj (data_fields d)) ≡ some d
unfolding validate_data data_fields as_model keys_within ◌>>=◌ get or_default
validate_data-fields d hd hf =
    rw (validate_non_empty-str hd) (rw (normalize_optional-opt_str d.fingerprint hf) refl)

validate_risk-fields :
    (r : RiskSpec) → IsTrimmed r.profile → validate_risk (obj (risk_fields r)) ≡ some r
unfolding validate_risk risk_fields as_model keys_within ◌>>=◌ get
validate_risk-fields r hp = rw (validate_non_empty-str hp) refl

validate_env_names-map :
    (ns : List String) → AllNames ns → validate_env_names (items_of (map str ns)) ≡ some ns
unfolding validate_env_names validate_env_name ◌>>=◌
validate_env_names-map [] h = refl
validate_env_names-map (n ∷ ns) h =
    rw h.0.trimmed (rw h.0.full (rw h.1 (rw (validate_env_names-map ns h.2) refl)))

validate_env_name_list-json :
    (ns : List String) → AllNames ns → validate_env_name_list (names_json ns) ≡ some ns
unfolding validate_env_name_list names_json
validate_env_name_list-json = validate_env_names-map

check_duplicates_and_overlap-IsValid :
    (c : CredentialPlaceholdersSpec)
    → IsValidPlaceholders c
    → check_duplicates_and_overlap c ≡ some c
unfolding check_duplicates_and_overlap
check_duplicates_and_overlap-IsValid c h = rw h.required_once (rw h.optional_once (rw h.apart refl))

validate_placeholders-fields :
    (c : CredentialPlaceholdersSpec)
    → IsValidPlaceholders c
    → validate_placeholders (obj (placeholders_fields c)) ≡ some c
unfolding validate_placeholders placeholders_fields as_model keys_within ◌>>=◌ get or_default
validate_placeholders-fields c h =
    rw (validate_env_name_list-json c.required_env h.required_names) (
      rw (validate_env_name_list-json c.optional_env h.optional_names)
        (check_duplicates_and_overlap-IsValid c h))

-- pydantic reads a Boolean as itself.
module _ (to_bool : Json → Option Bool)
    (to_bool-bool : (b : Bool) → to_bool (bool b) ≡ some b) where
  validate_observability-fields :
      (o : ObservabilitySpec)
      → validate_observability to_bool (obj (observability_fields o)) ≡ some o
  unfolding validate_observability observability_fields as_model keys_within ◌>>=◌ get or_default
  validate_observability-fields o =
      rw (to_bool-bool o.journal) (rw (to_bool-bool o.metrics) (rw (to_bool-bool o.report) refl))

  optional_literal-opt_str :
      (t : Option String)
      → (t ≡ none) ⊎ (t ≡ some "paper_testnet_probe")
      → optional_literal ("paper_testnet_probe" ∷ []) (opt_str t) ≡ some t
  unfolding optional_literal
  optional_literal-opt_str t (inl e) = rw e refl
  optional_literal-opt_str t (inr e) = rw e refl

  validate_readiness-fields :
      (c : ConnectivityReadinessSpec)
      → IsValidReadiness c
      → validate_readiness to_bool (obj (readiness_fields c)) ≡ some c
  unfolding validate_readiness readiness_fields as_model keys_within ◌>>=◌ get or_default
  validate_readiness-fields c h = rw (to_bool-bool c.enabled) (
      rw (optional_literal-opt_str c.target h.target_known) (
        rw (normalize_optional-opt_str c.venue h.venue_trimmed) (
          rw (validate_placeholders-fields c.credential_placeholders h.placeholders)
            (rw (normalize_optional-opt_str c.notes h.notes_trimmed) refl))))

  validate_optional_readiness-json :
      (o : Option ConnectivityReadinessSpec)
      → IsValidReadinessOption o
      → validate_optional_readiness to_bool (readiness_json o) ≡ some o
  unfolding validate_optional_readiness readiness_json ◌>>=◌
  validate_optional_readiness-json none h = refl
  validate_optional_readiness-json (some c) h = rw (validate_readiness-fields c h) refl

  literal-mode :
      (m : String)
      → (m ≡ "backtest") ⊎ (m ≡ "paper")
      → literal ("backtest" ∷ "paper" ∷ []) (str m) ≡ some m
  unfolding literal
  literal-mode m (inl e) = rw e refl
  literal-mode m (inr e) = rw e refl

  literal-only : (a m : String) → m ≡ a → literal (a ∷ []) (str m) ≡ some m
  unfolding literal
  literal-only a m e = rw e (rw (eq_self a) refl)

  -- Where pydantic reads a Boolean as itself: the normalised dictionary of a valid specification,
  -- the form in which a run directory records it, is read back as the same specification.
  pub validate_run_spec-run_spec_to_normalized_dict :
      (s : RunSpec)
      → IsValidSpec s
      → validate_run_spec to_bool (obj (run_spec_to_normalized_dict s)) ≡ some s
  unfolding validate_run_spec run_spec_to_normalized_dict as_model keys_within ◌>>=◌ get or_default
  validate_run_spec-run_spec_to_normalized_dict s h =
      rw (literal-only "v1" s.spec_version h.version_known) (
        rw (validate_non_empty-str h.run_id_trimmed) (
          rw (literal-mode s.mode h.mode_known) (
            rw (literal-only "nautilus" s.engine h.engine_known) (
              rw (validate_non_empty-str h.venue_trimmed) (
                rw (validate_non_empty-str h.instrument_trimmed) (
                  rw (validate_strategy-fields s.strategy h.name_trimmed h.strategy_version_trimmed)
                    (rw (validate_data-fields s.data_spec h.dataset_trimmed h.fingerprint_trimmed) (
                      rw (validate_risk-fields s.risk h.profile_trimmed) (
                        rw (validate_observability-fields s.observability) (
                          rw
                            (validate_optional_readiness-json s.connectivity_readiness
                              h.readiness_valid)
                            (rw h.venues_match refl)))))))))))
