-- ===== src/Reconciliation/Freshness.antt =====
-- `_resolve_max_age_seconds` and `_compare_freshness`. A value of the key `freshness` is a
-- dictionary or null: `none` stands for null. Ages below 2^33 seconds are exact in the code, whose
-- `total_seconds()` is a double.
use tradingchassis_ops_lab.Base.{
  ℕ, zero, suc, ◌-◌, String, ◌<>◌, Bool, true, false, Option, none, some, List, [], ◌∷◌, ◌++◌, map,
  ltb,
}
use tradingchassis_ops_lab.Base.Json.{Fields, decimal, is_str_nonblank}
use tradingchassis_ops_lab.KillSwitch.Parse.{value}
use tradingchassis_ops_lab.Reconciliation.Standard.{
  Standard, instant_at, refused, parse_iso8601_utc,
}
use tradingchassis_ops_lab.Reconciliation.Validate.{positive_int}
use tradingchassis_ops_lab.Reconciliation.Checks.{
  Check, check_of, fine, warning, unknown, join, text_at,
}
use Prim.Native.Nat.{◌/◌}

-- The positive `max_age_seconds` of a dictionary, and otherwise 0.
abbrev pub max_age_in : Option Fields → ℕ
max_age_in none = zero
max_age_in (some fs) = positive_int (value fs "max_age_seconds")

unfoldable pub resolve_max_age_seconds : Option Fields → Option Fields → Option ℕ
resolve_max_age_seconds expected observed = elim (max_age_in observed) [
  | suc n ↦ some (suc n)
  | zero ↦ elim (max_age_in expected) [ suc n ↦ some (suc n) | zero ↦ none ]
]

-- `max(0, int((now_utc - parsed).total_seconds()))`
unfoldable pub age_seconds : ℕ → ℕ → ℕ
age_seconds now parsed = (now - parsed) / 1000000

abbrev missing_if : Bool → String → List String
missing_if true key = []
missing_if false key = key ∷ []

-- `sorted` of the fields that are no text or a blank one.
unfoldable pub missing_fields : Fields → List String
missing_fields fs =
    missing_if (is_str_nonblank (value fs "orders_ts_utc")) "orders_ts_utc"
    ++ missing_if (is_str_nonblank (value fs "position_ts_utc")) "position_ts_utc"

abbrev stale_if : Bool → String → List String
stale_if true key = key ∷ []
stale_if false key = []

unfoldable pub stale_fields : ℕ → ℕ → ℕ → List String
stale_fields orders_age position_age max_age =
    stale_if (ltb max_age orders_age) "orders_ts_utc"
    ++ stale_if (ltb max_age position_age) "position_ts_utc"

abbrev quoted : String → String
quoted s = "'" <> s <> "'"

-- `f"{keys}"` for the names of fields
abbrev names_text : List String → String
names_text ks = "[" <> join ", " (map quoted ks) <> "]"

abbrev ages_text : ℕ → ℕ → String
ages_text orders_age position_age =
    "orders_ts_utc=" <> decimal orders_age <> "s, position_ts_utc=" <> decimal position_age <> "s"

-- The check, once both ages are known.
unfoldable pub judge_ages : ℕ → ℕ → ℕ → Check
unfolding stale_fields decimal
judge_ages orders_age position_age max_age = elim (stale_fields orders_age position_age max_age) [
  | [] ↦ check_of "freshness" fine true (
      "freshness within max_age_seconds="
      <> decimal max_age
      <> "; ages: "
      <> ages_text orders_age position_age)
  | ◌∷◌ k ks ↦ check_of "freshness" warning true (
      "stale="
      <> names_text (k ∷ ks)
      <> " max_age_seconds="
      <> decimal max_age
      <> "; ages: "
      <> ages_text orders_age position_age)
]

abbrev pub unknown_freshness : String → Check
unknown_freshness details = check_of "freshness" unknown false details

-- The two timestamps of a dictionary, with the first error.
abbrev judge_position : Standard → ℕ → ℕ → ℕ → String → Check
judge_position std now max_age orders_at position_text =
    elim (parse_iso8601_utc std position_text) [
      | refused t ↦ unknown_freshness ("observed.freshness.position_ts_utc" <> t)
      | instant_at position_at ↦
          judge_ages (age_seconds now orders_at) (age_seconds now position_at) max_age
    ]

unfoldable pub judge_timestamps : Standard → ℕ → ℕ → String → String → Check
unfolding judge_ages age_seconds
judge_timestamps std now max_age orders_text position_text =
    elim (parse_iso8601_utc std orders_text) [
      | refused t ↦ unknown_freshness ("observed.freshness.orders_ts_utc" <> t)
      | instant_at orders_at ↦ judge_position std now max_age orders_at position_text
    ]

unfoldable pub judge_observed : Standard → ℕ → ℕ → Fields → Check
unfolding missing_fields judge_timestamps
judge_observed std now max_age observed = elim (missing_fields observed) [
  | ◌∷◌ k ks ↦ unknown_freshness ("observed freshness timestamps missing: " <> names_text (k ∷ ks))
  | [] ↦
      judge_timestamps std now max_age (text_at observed "orders_ts_utc")
        (text_at observed "position_ts_utc")
]

unfoldable pub compare_freshness : Standard → Option Fields → Option Fields → ℕ → Check
unfolding resolve_max_age_seconds judge_observed
compare_freshness std expected observed now = elim (resolve_max_age_seconds expected observed) [
  | none ↦ unknown_freshness "freshness.max_age_seconds missing in expected and observed payloads"
  | some max_age ↦ elim observed [
    | none ↦ unknown_freshness "observed freshness payload missing"
    | some fs ↦ judge_observed std now max_age fs
  ]
]
