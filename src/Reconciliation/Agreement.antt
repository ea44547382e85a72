-- ===== src/Reconciliation/Agreement.antt =====
-- When the comparisons find agreement, age or trouble.
use tradingchassis_ops_lab.Base.{
  ℕ, String, true, false, ◌||◌, Option, none, some, List, [], ◌∷◌, ◌++◌, ◌≡◌, ◌≢◌, ◌↔◌, refl, sym,
  ap, ◌∙◌, if◌then◌else◌, eq_self, eq_iff, ltb, arith, Bool-cases, inl, inr,
}
use tradingchassis_ops_lab.Base.Json.{Fields, is_str_nonblank}
use tradingchassis_ops_lab.World.Effects.{ok, raised, arithmetic_error}
use tradingchassis_ops_lab.KillSwitch.Parse.{value}
use tradingchassis_ops_lab.Reconciliation.Standard.{
  Standard, Decimal, instant_at, parse_iso8601_utc,
}
use tradingchassis_ops_lab.Reconciliation.Checks.{
  Check, fine, mismatch, join, check_by_deltas, warning, check_of, done, stopped, ◌>>=◌, text_at,
  opt_text_at, same_option, parse_decimal, parse_optional_decimal, check_flat, normalize_position,
  Position, delta, position_deltas, compare_position,
}
use tradingchassis_ops_lab.Reconciliation.Freshness.{
  resolve_max_age_seconds, age_seconds, missing_fields, stale_fields, judge_ages, judge_timestamps,
  judge_observed, compare_freshness,
}

pub same_option_self : (o : Option String) → same_option o o ≡ true
same_option_self none = refl
same_option_self (some s) = eq_self s

pub eq_of_same_option : (a b : Option String) → same_option a b ≡ true → a ≡ b
eq_of_same_option none none h = refl
eq_of_same_option none (some t) h = cc
eq_of_same_option (some s) none h = cc
eq_of_same_option (some s) (some t) h = ap some ((eq_iff s t).0 h)

-- A list of texts is empty exactly if its parts are.
pub nil-append : (xs ys : List String) → xs ++ ys ≡ [] → (xs ≡ []) × (ys ≡ [])
nil-append [] ys h = (refl, h)
nil-append (x ∷ xs) ys h = cc

pub some-injective : {a b : String} → ◌≡◌ {A = Option String} (some a) (some b) → a ≡ b
some-injective e = cc

-- What a comparison by deltas comes to: a check that is fine exactly if there are none.
pub check_by_deltas-severity :
    (std : Standard) (name agreement : String) (ds : List String)
    → (c : Check) × (check_by_deltas std name agreement (done ds) ≡ ok c)
      × ((c.severity ≡ fine) ↔ (ds ≡ []))
      × ((c.severity ≡ mismatch) ↔ (ds ≢ []))
check_by_deltas-severity std name agreement [] = (
  check_of name fine true agreement,
  refl,
  ((λ _. refl), (λ _. refl)),
  ((λ e. absurd (fine-ne-mismatch e)), (λ n. absurd (n refl))),
)
  where
    fine-ne-mismatch : fine ≡ mismatch → ⊥
    fine-ne-mismatch e = cc
check_by_deltas-severity std name agreement (d ∷ ds) = (
  check_of name mismatch false (join "; " (d ∷ ds)),
  refl,
  ((λ e. absurd (mismatch-ne-fine e)), (λ e. absurd (cons-ne-nil e))),
  ((λ _ e. cons-ne-nil e), (λ _. refl)),
)
  where
    mismatch-ne-fine : mismatch ≡ fine → ⊥
    mismatch-ne-fine e = cc

    cons-ne-nil : ◌≡◌ {A = List String} (d ∷ ds) [] → ⊥
    cons-ne-nil e = cc

-- The same with what the absence of deltas means.
pub check_by_deltas-decides :
    (std : Standard) (name agreement : String) (ds : List String) {P : Type 0}
    → (ds ≡ []) ↔ P
    → (c : Check) × (check_by_deltas std name agreement (done ds) ≡ ok c)
      × ((c.severity ≡ fine) ↔ P)
      × ((c.severity ≡ mismatch) ↔ (¬ P))
check_by_deltas-decides std name agreement ds h =
    let (c, e, f, m) = check_by_deltas-severity std name agreement ds in
    (
      c,
      e,
      ((λ k. h.0 (f.0 k)), (λ p. f.1 (h.1 p))),
      ((λ k p. m.0 k (h.1 p)), (λ n. m.1 (λ z. n (h.0 z)))),
    )

module _ (std : Standard) where
  delta_self : (key : String) (o : Option String) → delta std key o o ≡ []
  unfolding delta
  delta_self key o = rw (same_option_self o) refl

  eq_of_delta : (key : String) (a b : Option String) → delta std key a b ≡ [] → a ≡ b
  unfolding delta
  eq_of_delta key a b h = elim (Bool-cases (same_option a b)) [
    | inl same ↦ eq_of_same_option a b same
    | inr other ↦ ground (arith, h, other)
  ]

  position_deltas_self : (p : Position) → position_deltas std p p ≡ []
  unfolding position_deltas
  position_deltas_self p = rw (delta_self "symbol" (some p.symbol)) (
      rw (delta_self "side" (some p.side))
        (rw (delta_self "qty" (some p.qty)) (delta_self "avg_entry_price" p.avg_entry_price)))

  eq_of_position_deltas : (p q : Position) → position_deltas std p q ≡ [] → p ≡ q
  unfolding position_deltas
  eq_of_position_deltas p q h =
      let (symbol, rest) = nil-append _ _ h in
      let (side, rest') = nil-append _ _ rest in
      let (qty, price) = nil-append _ _ rest' in
      let a = some-injective (eq_of_delta "symbol" _ _ symbol) in
      let b = some-injective (eq_of_delta "side" _ _ side) in
      let c = some-injective (eq_of_delta "qty" _ _ qty) in
      let d = eq_of_delta "avg_entry_price" _ _ price in
      λ i. record { symbol = a i; side = b i; qty = c i; avg_entry_price = d i }

  -- Two payloads whose positions have normal forms: the comparison gives a check that is fine exactly
  -- if the two normal forms are the same, in symbol, side, quantity and entry price, and a mismatch
  -- exactly if they are not.
  pub compare_position-decides :
      (e o : Fields) {p q : Position}
      → normalize_position std e "expected.position" ≡ done p
      → normalize_position std o "observed.position" ≡ done q
      → (c : Check) × (compare_position std e o ≡ ok c)
        × ((c.severity ≡ fine) ↔ (p ≡ q))
        × ((c.severity ≡ mismatch) ↔ (p ≢ q))
  unfolding compare_position ◌>>=◌
  compare_position-decides e o {p} {q} he ho = rw he (
      rw ho (
        check_by_deltas-decides std "position" "position matched" (position_deltas std p q) (
          eq_of_position_deltas p q,
          (λ e. ap (λ r. position_deltas std p r) (sym e) ∙ position_deltas_self p),
        )))

  parse_decimal-done :
      (raw name : String) {q : Decimal}
      → std.parse raw ≡ some q
      → parse_decimal std raw name ≡ done q
  unfolding parse_decimal
  parse_decimal-done raw name h = rw (h, parse_decimal) refl

  check_flat-signaling :
      (side label : String) (q : Decimal) (price : Option Decimal)
      → side ≡ "flat"
      → q.is_zero ≡ none
      → check_flat std side q price label ≡ stopped arithmetic_error
  unfolding check_flat
  check_flat-signaling side label q price h k = rw h (rw (k, check_flat) refl)

  -- The expected position is flat, its quantity parses to a decimal that no comparison with zero is
  -- defined for, and its price is null or parses too: the comparison of positions raises an
  -- arithmetic error, whatever was observed.
  pub compare_position-signaling :
      (e o : Fields) {q : Decimal} {price : Option Decimal}
      → text_at e "side" ≡ "flat"
      → std.parse (text_at e "qty") ≡ some q
      → q.is_zero ≡ none
      → parse_optional_decimal std
          (opt_text_at e "avg_entry_price")
          "expected.position.avg_entry_price"
        ≡ done price
      → compare_position std e o ≡ raised arithmetic_error
  unfolding compare_position normalize_position ◌>>=◌
  compare_position-signaling e o {q} {price} flat parsed signaling priced =
      rw (parse_decimal-done _ _ parsed) (
        rw priced (
          rw (check_flat-signaling (text_at e "side") "expected.position" q price flat signaling)
            refl))

  judge_ages-severity :
      (a b m : ℕ) → (judge_ages a b m).severity ≡ (if ltb m a || ltb m b then warning else fine)
  unfolding judge_ages stale_fields
  judge_ages-severity a b m = ground arith

  judge_timestamps-parsed :
      (now limit : ℕ) (orders_text position_text : String) {orders_at position_at : ℕ}
      → parse_iso8601_utc std orders_text ≡ instant_at orders_at
      → parse_iso8601_utc std position_text ≡ instant_at position_at
      → judge_timestamps std now limit orders_text position_text
        ≡ judge_ages (age_seconds now orders_at) (age_seconds now position_at) limit
  unfolding judge_timestamps
  judge_timestamps-parsed now limit a b h k = ground arith

  judge_observed-given :
      (now limit : ℕ) (observed : Fields)
      → is_str_nonblank (value observed "orders_ts_utc") ≡ true
      → is_str_nonblank (value observed "position_ts_utc") ≡ true
      → judge_observed std now limit observed
        ≡ judge_timestamps std now limit
            (text_at observed "orders_ts_utc")
            (text_at observed "position_ts_utc")
  unfolding judge_observed missing_fields
  judge_observed-given now limit observed h k = ground arith

  -- A limit is found in one of the payloads, and both observed timestamps are given and parse: the
  -- check of freshness is a warning if one of the ages is over the limit, and otherwise it is fine.
  pub compare_freshness-severity :
      (expected : Option Fields) (observed : Fields) (now : ℕ) {max_age orders_at position_at : ℕ}
      → resolve_max_age_seconds expected (some observed) ≡ some max_age
      → is_str_nonblank (value observed "orders_ts_utc") ≡ true
      → is_str_nonblank (value observed "position_ts_utc") ≡ true
      → parse_iso8601_utc std (text_at observed "orders_ts_utc") ≡ instant_at orders_at
      → parse_iso8601_utc std (text_at observed "position_ts_utc") ≡ instant_at position_at
      → (compare_freshness std expected (some observed) now).severity ≡ (
          if ltb max_age (age_seconds now orders_at) || ltb max_age (age_seconds now position_at)
          then warning
          else fine)
  unfolding compare_freshness
  compare_freshness-severity expected observed now {max_age} {orders_at} {position_at} limit
        orders_given position_given orders_parsed position_parsed =
      rw (limit, compare_freshness)
        (rw (judge_observed-given now _ observed orders_given position_given) (
          rw (judge_timestamps-parsed now _ _ _ orders_parsed position_parsed) (
            judge_ages-severity (age_seconds now orders_at) (age_seconds now position_at) max_age)))
