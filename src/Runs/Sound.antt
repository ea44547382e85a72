-- ===== src/Runs/Sound.antt =====
-- A specification that passes the validators of runs/spec.py is valid.
use tradingchassis_ops_lab.Base.{
  String, Bool, true, false, ◌&&◌, Option, none, some, [], ◌∷◌, ◌≡◌, ◌⊎◌, inl, inr, refl, arith,
  if◌then◌else◌, eq_iff, contains, Bool-cases,
}
use tradingchassis_ops_lab.Base.Json.{Json, null, str}
use tradingchassis_ops_lab.Runs.Spec.{CredentialPlaceholdersSpec, RunSpec}
use tradingchassis_ops_lab.Runs.Validate.{
  literal, optional_literal, no_duplicates, disjoint, check_duplicates_and_overlap, no_placeholders,
  validate_placeholders, validate_readiness, validate_optional_readiness, validate_run_spec,
  venue_matches,
}
use tradingchassis_ops_lab.Runs.Valid.{
  IsTrimmedOption, AllNames, IsValidPlaceholders, IsValidReadiness, IsValidReadinessOption,
  IsValidSpec, Yields, Yields-any, Yields-use, Yields-or_default, Yields-bind, Yields-given,
  Yields-non_empty, Yields-optional, Yields-strategy, Yields-data, Yields-risk,
  Yields-env_name_list,
}

Yields-apart :
    (c : CredentialPlaceholdersSpec)
    → AllNames c.required_env
    → AllNames c.optional_env
    → Yields (check_duplicates_and_overlap c) IsValidPlaceholders
unfolding check_duplicates_and_overlap
Yields-apart c hr ho = go _ refl
  where
    go :
        (b : Bool)
        → (no_duplicates c.required_env
            && no_duplicates c.optional_env
            && disjoint c.required_env c.optional_env)
          ≡ b
        → Yields (if b then some c else none) IsValidPlaceholders
    go true e = record {
      required_names = hr;
      optional_names = ho;
      required_once = ground arith;
      optional_once = ground arith;
      apart = ground arith;
    }
    go false e = tt

Yields-placeholders : (v : Json) → Yields (validate_placeholders v) IsValidPlaceholders
unfolding validate_placeholders
Yields-placeholders v = Yields-given _ _ _ λ fs.
    Yields-bind _ _ AllNames _ (Yields-or_default _ _ _ _ tt Yields-env_name_list) λ required hr.
      Yields-bind _ _ AllNames _ (Yields-or_default _ _ _ _ tt Yields-env_name_list)
        λ optional ho. Yields-apart _ hr ho

IsKnownTarget : Option String → Type 0
IsKnownTarget t = (t ≡ none) ⊎ (t ≡ some "paper_testnet_probe")

Yields-target : (v : Json) → Yields (optional_literal ("paper_testnet_probe" ∷ []) v) IsKnownTarget
unfolding optional_literal IsKnownTarget
Yields-target null = inl refl
Yields-target (str s) = elim (Bool-cases (contains ("paper_testnet_probe" ∷ []) s)) [
  | inl known ↦ rw known (inr (ground (arith, eq_iff s "paper_testnet_probe")))
  | inr other ↦ rw other tt
]
Yields-target _ = tt

-- One of two literals.
Yields-one_of_two :
    (a b : String) (v : Json) → Yields (literal (a ∷ b ∷ []) v) (λ s. (s ≡ a) ⊎ (s ≡ b))
unfolding literal
Yields-one_of_two a b (str s) = elim (Bool-cases (contains (a ∷ b ∷ []) s)) [
  | inl known ↦ rw known (ground (arith, eq_iff s a, eq_iff s b))
  | inr other ↦ rw other tt
]
Yields-one_of_two a b _ = tt

Yields-only : (a : String) (v : Json) → Yields (literal (a ∷ []) v) (λ s. s ≡ a)
unfolding literal
Yields-only a (str s) = elim (Bool-cases (contains (a ∷ []) s)) [
  | inl known ↦ rw known (ground (arith, eq_iff s a))
  | inr other ↦ rw other tt
]
Yields-only a _ = tt

Yields-venue :
    (b : Bool) (s : RunSpec) (P : RunSpec → Type 0)
    → (b ≡ true → P s)
    → Yields (if b then some s else none) P
Yields-venue true s P h = h refl
Yields-venue false s P h = tt

default-IsValidPlaceholders : IsValidPlaceholders no_placeholders
unfolding no_duplicates disjoint
default-IsValidPlaceholders = record {
  required_names = tt;
  optional_names = tt;
  required_once = refl;
  optional_once = refl;
  apart = refl;
}

module _ (to_bool : Json → Option Bool) where
  Yields-readiness : (v : Json) → Yields (validate_readiness to_bool v) IsValidReadiness
  unfolding validate_readiness IsKnownTarget
  Yields-readiness v = Yields-given _ _ _ λ fs. Yields-bind _ _ _ _ (Yields-any _) λ enabled _.
      Yields-bind _ _ IsKnownTarget _ (Yields-or_default _ _ _ _ (inl refl) Yields-target)
        λ target ht.
          Yields-bind _ _ IsTrimmedOption _ (Yields-or_default _ _ _ _ tt Yields-optional)
            λ venue hv.
              Yields-bind _ _ IsValidPlaceholders _
                (Yields-or_default _ _ _ _ default-IsValidPlaceholders Yields-placeholders)
                λ placeholders hp.
                  Yields-bind _ _ IsTrimmedOption _ (Yields-or_default _ _ _ _ tt Yields-optional)
                    λ notes hn. record {
                      target_known = ht;
                      venue_trimmed = hv;
                      notes_trimmed = hn;
                      placeholders = hp;
                    }

  Yields-optional_readiness :
      (v : Json) → Yields (validate_optional_readiness to_bool v) IsValidReadinessOption
  unfolding validate_optional_readiness
  Yields-optional_readiness null = tt
  Yields-optional_readiness v = Yields-bind _ _ _ _ (Yields-readiness v) λ c h. h

  Yields-run_spec : (v : Json) → Yields (validate_run_spec to_bool v) IsValidSpec
  unfolding validate_run_spec
  Yields-run_spec v = Yields-given _ _ _ λ fs.
      Yields-bind _ _ _ _ (Yields-given _ _ _ (Yields-only "v1")) λ spec_version h1.
        Yields-bind _ _ _ _ (Yields-given _ _ _ Yields-non_empty) λ run_id h2.
          Yields-bind _ _ _ _ (Yields-given _ _ _ (Yields-one_of_two "backtest" "paper")) λ mode h3.
            Yields-bind _ _ _ _ (Yields-given _ _ _ (Yields-only "nautilus")) λ engine h4.
              Yields-bind _ _ _ _ (Yields-given _ _ _ Yields-non_empty) λ venue h5.
                Yields-bind _ _ _ _ (Yields-given _ _ _ Yields-non_empty) λ instrument h6.
                  Yields-bind _ _ _ _ (Yields-given _ _ _ Yields-strategy) λ strategy h7.
                    Yields-bind _ _ _ _ (Yields-given _ _ _ Yields-data) λ data_spec h8.
                      Yields-bind _ _ _ _ (Yields-given _ _ _ Yields-risk) λ risk h9.
                        Yields-given _ _ _ λ observability.
                          Yields-bind _ _ IsValidReadinessOption _
                            (Yields-or_default _ _ _ _ tt Yields-optional_readiness)
                            λ readiness h10. Yields-venue (venue_matches readiness venue) _ _ λ h11.
                              record {
                                version_known = h1;
                                run_id_trimmed = h2;
                                mode_known = h3;
                                engine_known = h4;
                                venue_trimmed = h5;
                                instrument_trimmed = h6;
                                name_trimmed = h7.0;
                                strategy_version_trimmed = h7.1;
                                dataset_trimmed = h8.0;
                                fingerprint_trimmed = h8.1;
                                profile_trimmed = h9;
                                readiness_valid = h10;
                                venues_match = h11;
                              }

  -- A specification that the validators let pass is valid: its version is `v1`, its mode `backtest`
  -- or `paper`, its engine `nautilus`, every text of it is trimmed and not empty, and where it has a
  -- readiness section, the environment names of that section have the form of such names, without
  -- duplicates or overlap, and its venue, if given, is the venue of the run.
  pub validate_run_spec-IsValidSpec :
      (v : Json) {s : RunSpec} → validate_run_spec to_bool v ≡ some s → IsValidSpec s
  validate_run_spec-IsValidSpec v = Yields-use _ _ (Yields-run_spec v)
