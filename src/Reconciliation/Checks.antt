-- ===== src/Reconciliation/Checks.antt =====
-- The three comparisons of reconciliation/checks.py, their summary and their status.
use tradingchassis_ops_lab.Base.{
  ℕ, String, ◌<>◌, Bool, true, false, Option, none, some, List, [], ◌∷◌, ◌++◌, if◌then◌else◌, ◌==◌,
  strip,
}
use tradingchassis_ops_lab.Base.Json.{str, Fields, get}
use tradingchassis_ops_lab.World.Effects.{Exception, Result, ok, raised, arithmetic_error}
use tradingchassis_ops_lab.Reconciliation.Standard.{Standard, Decimal, render_decimal}

-- The severities, in their order: `ok`, `warning`, `unknown`, `mismatch`.
pub data Severity : Type 0 where
  fine warning unknown mismatch : Severity

-- `_SEVERITY_PRECEDENCE`
abbrev pub precedence : Severity → ℕ
precedence fine = 0
precedence warning = 1
precedence unknown = 2
precedence mismatch = 3

abbrev pub severity_text : Severity → String
severity_text fine = "ok"
severity_text warning = "warning"
severity_text unknown = "unknown"
severity_text mismatch = "mismatch"

pub record Check : Type 0 where
  pub name : String
  pub severity : Severity
  pub matched : Bool
  pub details : String

abbrev pub check_of : String → Severity → Bool → String → Check
check_of name severity matched details = record {
  name = name;
  severity = severity;
  matched = matched;
  details = details;
}

-- A comparison that is done, or stopped by `_ComparisonUnknownError` with its text, or by another
-- exception.
pub data Attempt (A : Type 0) : Type 0 where
  done : A → Attempt A
  incomparable : String → Attempt A
  stopped : Exception → Attempt A

infixl 5 ◌>>=◌ ◌>>◌
unfoldable pub ◌>>=◌ : {A B : Type 0} → Attempt A → (A → Attempt B) → Attempt B
done a >>= f = f a
incomparable t >>= f = incomparable t
stopped e >>= f = stopped e

abbrev pub ◌>>◌ : {A B : Type 0} → Attempt A → Attempt B → Attempt B
m >> k = m >>= λ _. k

-- The value at a key that validation has found to be a text.
abbrev pub text_at : Fields → String → String
text_at fs k = elim (get fs k) [ some (str s) ↦ s | _ ↦ "" ]

-- A text, or `None`.
abbrev pub opt_text_at : Fields → String → Option String
opt_text_at fs k = elim (get fs k) [ some (str s) ↦ some s | _ ↦ none ]

abbrev pub same_option : Option String → Option String → Bool
same_option none none = true
same_option (some a) (some b) = a == b
same_option _ _ = false

-- `"; ".join(deltas)`
unfoldable pub join : String → List String → String
join sep [] = ""
join sep (t ∷ []) = t
join sep (t ∷ ts) = t <> sep <> join sep ts

-- What a position compares by.
pub record Position : Type 0 where
  pub symbol : String
  pub side : String
  pub qty : String
  pub avg_entry_price : Option String

module _ (std : Standard) where
  abbrev pub repr_option : Option String → String
  repr_option none = "None"
  repr_option (some s) = std.repr s

  unfoldable pub parse_decimal : String → String → Attempt Decimal
  parse_decimal raw field_name = elim (std.parse raw) [
    | none ↦ incomparable (field_name <> " must be parseable as Decimal.")
    | some d ↦ done d
  ]

  -- `None` is no decimal; a text is parsed.
  unfoldable pub parse_optional_decimal : Option String → String → Attempt (Option Decimal)
  unfolding parse_decimal
  parse_optional_decimal none field_name = done none
  parse_optional_decimal (some raw) field_name = parse_decimal raw field_name >>= λ d. done (some d)

  abbrev pub render_optional : Option Decimal → Option String
  render_optional none = none
  render_optional (some d) = some (render_decimal d)

  -- A flat position has no quantity and no price.
  unfoldable pub check_flat : String → Decimal → Option Decimal → String → Attempt (Unit {0})
  check_flat side qty price label =
      if side == "flat"
      then elim qty.is_zero [
        | none ↦ stopped arithmetic_error
        | some false ↦ incomparable (label <> " flat position requires qty=0.")
        | some true ↦ elim price [
          | some _ ↦ incomparable (label <> " flat position requires avg_entry_price=null.")
          | none ↦ done tt
        ]
      ]
      else done tt

  unfoldable pub normalize_position : Fields → String → Attempt Position
  unfolding parse_decimal parse_optional_decimal check_flat
  normalize_position position label = do
    qty ← parse_decimal (text_at position "qty") (label <> ".qty")
    price ←
        parse_optional_decimal (opt_text_at position "avg_entry_price")
          (label <> ".avg_entry_price")
    check_flat (text_at position "side") qty price label
    done (record {
      symbol = strip (text_at position "symbol");
      side = text_at position "side";
      qty = render_decimal qty;
      avg_entry_price = render_optional price;
    })

  -- One line of a comparison: nothing if the values agree.
  unfoldable pub delta : String → Option String → Option String → List String
  delta key expected observed =
      if same_option expected observed
      then []
      else (key <> ": expected=" <> repr_option expected <> " observed=" <> repr_option observed)
        ∷ []

  unfoldable pub position_deltas : Position → Position → List String
  unfolding delta
  position_deltas e o =
      delta "symbol" (some e.symbol) (some o.symbol)
      ++ (delta "side" (some e.side) (some o.side)
          ++ (delta "qty" (some e.qty) (some o.qty)
              ++ delta "avg_entry_price" e.avg_entry_price o.avg_entry_price))

  -- The check that a list of deltas or a failure makes.
  abbrev pub check_by_deltas : String → String → Attempt (List String) → Result Check
  check_by_deltas name agreement (done []) = ok (check_of name fine true agreement)
  check_by_deltas name agreement (done (d ∷ ds)) =
      ok (check_of name mismatch false (join "; " (d ∷ ds)))
  check_by_deltas name agreement (incomparable t) = ok (check_of name unknown false t)
  check_by_deltas name agreement (stopped e) = raised e

  unfoldable pub compare_position : Fields → Fields → Result Check
  compare_position expected_position observed_position =
      check_by_deltas "position" "position matched" (do
        expected ← normalize_position expected_position "expected.position"
        observed ← normalize_position observed_position "observed.position"
        done (position_deltas expected observed))
