-- ===== src/Runs/Valid.antt =====
-- What a validated run specification satisfies.
use mathlib.Core.Path.{subst}
use mathlib.Core.Option.{some-injective}
use tradingchassis_ops_lab.Base.{
  String, true, false, Option, none, some, List, [], ◌∷◌, ◌≡◌, ◌⊎◌, Bool-cases, inl, inr, strip,
  strip_idem, is_empty,
}
use tradingchassis_ops_lab.Base.Json.{Json, null, str, arr, Items, nil, cons}
use tradingchassis_ops_lab.Runs.Spec.{
  CredentialPlaceholdersSpec, ConnectivityReadinessSpec, RunSpec,
}
use tradingchassis_ops_lab.Runs.Validate.{
  ◌>>=◌, or_default, validate_non_empty, normalize_optional, validate_strategy, validate_data,
  validate_risk, validate_env_name, validate_env_names, validate_env_name_list, is_env_var_name,
  no_duplicates, disjoint, venue_matches,
}

-- A text without white space round it, and not empty.
pub record IsTrimmed (s : String) : Type 0 where
  pub trimmed : strip s ≡ s
  pub full : is_empty s ≡ false

abbrev pub IsTrimmedOption : Option String → Type 0
IsTrimmedOption none = Unit
IsTrimmedOption (some s) = IsTrimmed s

abbrev pub AllNames : List String → Type 0
AllNames [] = Unit
AllNames (n ∷ ns) = IsTrimmed n × (is_env_var_name n ≡ true) × AllNames ns

pub record IsValidPlaceholders (c : CredentialPlaceholdersSpec) : Type 0 where
  pub required_names : AllNames c.required_env
  pub optional_names : AllNames c.optional_env
  pub required_once : no_duplicates c.required_env ≡ true
  pub optional_once : no_duplicates c.optional_env ≡ true
  pub apart : disjoint c.required_env c.optional_env ≡ true

pub record IsValidReadiness (c : ConnectivityReadinessSpec) : Type 0 where
  pub target_known : (c.target ≡ none) ⊎ (c.target ≡ some "paper_testnet_probe")
  pub venue_trimmed : IsTrimmedOption c.venue
  pub notes_trimmed : IsTrimmedOption c.notes
  pub placeholders : IsValidPlaceholders c.credential_placeholders

abbrev pub IsValidReadinessOption : Option ConnectivityReadinessSpec → Type 0
IsValidReadinessOption none = Unit
IsValidReadinessOption (some c) = IsValidReadiness c

pub record IsValidSpec (s : RunSpec) : Type 0 where
  pub version_known : s.spec_version ≡ "v1"
  pub run_id_trimmed : IsTrimmed s.run_id
  pub mode_known : (s.mode ≡ "backtest") ⊎ (s.mode ≡ "paper")
  pub engine_known : s.engine ≡ "nautilus"
  pub venue_trimmed : IsTrimmed s.venue
  pub instrument_trimmed : IsTrimmed s.instrument
  pub name_trimmed : IsTrimmed s.strategy.name
  pub strategy_version_trimmed : IsTrimmed s.strategy.version
  pub dataset_trimmed : IsTrimmed s.data_spec.dataset
  pub fingerprint_trimmed : IsTrimmedOption s.data_spec.fingerprint
  pub profile_trimmed : IsTrimmed s.risk.profile
  pub readiness_valid : IsValidReadinessOption s.connectivity_readiness
  pub venues_match : venue_matches s.connectivity_readiness s.venue ≡ true

-- What holds of the value that a validation yields.
abbrev pub Yields : {A : Type 0} → Option A → (A → Type 0) → Type 0
Yields none P = Unit
Yields (some a) P = P a

module _ {A : Type 0} where
  pub Yields-any : (o : Option A) → Yields o (λ _. Unit {0})
  Yields-any none = tt
  Yields-any (some a) = tt

  pub Yields-use : (P : A → Type 0) (o : Option A) {a : A} → Yields o P → o ≡ some a → P a
  Yields-use P none h e = cc
  Yields-use P (some b) h e = subst P (some-injective b _ e) h

  pub Yields-or_default :
      (o : Option Json) (d : A) (f : Json → Option A) (Q : A → Type 0)
      → Q d
      → ((v : Json) → Yields (f v) Q)
      → Yields (or_default o d f) Q
  unfolding or_default
  Yields-or_default none d f Q h k = h
  Yields-or_default (some v) d f Q h k = k v

module _ {A B : Type 0} where
  pub Yields-bind :
      (m : Option A) (f : A → Option B) (Q : A → Type 0) (P : B → Type 0)
      → Yields m Q
      → ((a : A) → Q a → Yields (f a) P)
      → Yields (m >>= f) P
  unfolding ◌>>=◌
  Yields-bind none f Q P h k = tt
  Yields-bind (some a) f Q P h k = k a h

  -- A field that must be given, and then a validator.
  pub Yields-given :
      (o : Option A) (f : A → Option B) (P : B → Type 0)
      → ((a : A) → Yields (f a) P)
      → Yields (o >>= f) P
  unfolding ◌>>=◌
  Yields-given none f P k = tt
  Yields-given (some a) f P k = k a

pub Yields-non_empty : (v : Json) → Yields (validate_non_empty v) IsTrimmed
unfolding validate_non_empty
Yields-non_empty (str t) = elim (Bool-cases (is_empty (strip t))) [
  | inl blank ↦ rw blank tt
  | inr full ↦ rw full (record { trimmed = strip_idem t; full = full })
]
Yields-non_empty _ = tt

pub Yields-optional : (v : Json) → Yields (normalize_optional v) IsTrimmedOption
unfolding normalize_optional
Yields-optional null = tt
Yields-optional (str t) = elim (Bool-cases (is_empty (strip t))) [
  | inl blank ↦ rw blank tt
  | inr full ↦ rw full (record { trimmed = strip_idem t; full = full })
]
Yields-optional _ = tt

pub Yields-strategy :
    (v : Json) → Yields (validate_strategy v) (λ s. IsTrimmed s.name × IsTrimmed s.version)
unfolding validate_strategy
Yields-strategy v = Yields-given _ _ _ λ fs.
    Yields-bind _ _ IsTrimmed _ (Yields-given _ _ _ Yields-non_empty) λ name hn.
      Yields-bind _ _ IsTrimmed _ (Yields-given _ _ _ Yields-non_empty) λ version hv. (hn, hv)

pub Yields-data :
    (v : Json) → Yields (validate_data v) (λ d. IsTrimmed d.dataset × IsTrimmedOption d.fingerprint)
unfolding validate_data
Yields-data v = Yields-given _ _ _ λ fs.
    Yields-bind _ _ IsTrimmed _ (Yields-given _ _ _ Yields-non_empty) λ dataset hd.
      Yields-bind _ _ IsTrimmedOption _ (Yields-or_default _ _ _ _ tt Yields-optional)
        λ fingerprint hf. (hd, hf)

pub Yields-risk : (v : Json) → Yields (validate_risk v) (λ r. IsTrimmed r.profile)
unfolding validate_risk
Yields-risk v =
    Yields-given _ _ _
      λ fs. Yields-bind _ _ IsTrimmed _ (Yields-given _ _ _ Yields-non_empty) λ profile hp. hp

Yields-env_name :
    (v : Json) → Yields (validate_env_name v) (λ n. IsTrimmed n × (is_env_var_name n ≡ true))
unfolding validate_env_name
Yields-env_name (str t) = elim (Bool-cases (is_empty (strip t))) [
  | inl blank ↦ rw blank tt
  | inr full ↦ rw full (elim (Bool-cases (is_env_var_name (strip t))) [
    | inl name ↦ rw name (record { trimmed = strip_idem t; full = full }, name)
    | inr other ↦ rw other tt
  ])
]
Yields-env_name _ = tt

Yields-env_names : (vs : Items) → Yields (validate_env_names vs) AllNames
unfolding validate_env_names
Yields-env_names nil = tt
Yields-env_names (cons v vs) =
    Yields-bind _ _ _ _ (Yields-env_name v)
      λ n hn. Yields-bind _ _ AllNames _ (Yields-env_names vs) λ ns hns. (hn.0, hn.1, hns)

pub Yields-env_name_list : (v : Json) → Yields (validate_env_name_list v) AllNames
unfolding validate_env_name_list
Yields-env_name_list null = tt
Yields-env_name_list (arr vs) = Yields-env_names vs
Yields-env_name_list _ = tt
