-- ===== src/Reconciliation/Validate.antt =====
-- `_validate_payload`: the shape of a payload, test by test in the order of the code. All failures
-- are of one class, but for a membership test on a value that has no hash, which is a `TypeError`.
use tradingchassis_ops_lab.Base.{
  ℕ, zero, suc, String, Bool, true, false, not, ◌&&◌, ◌||◌, none, some, List, [], ◌∷◌,
}
use tradingchassis_ops_lab.Base.Json.{
  Json, null, bool, int, str, arr, obj, Items, nil, cons, Fields, pos, get, has_all, is_str,
  is_str_nonblank, is_null, is_text,
}
use tradingchassis_ops_lab.World.Effects.{Result, ok, raised, guard, reconciliation_validation}
use tradingchassis_ops_lab.KillSwitch.Parse.{value, in_texts}
use tradingchassis_ops_lab.Reconciliation.Standard.{
  Standard, instant_at, refused, parse_iso8601_utc,
}

infixl 5 ◌>>=◌ ◌>>◌
unfoldable pub ◌>>=◌ : {A B : Type 0} → Result A → (A → Result B) → Result B
ok a >>= f = f a
raised e >>= f = raised e

abbrev pub ◌>>◌ : {A B : Type 0} → Result A → Result B → Result B
m >> k = m >>= λ _. k

-- `if not b: raise ReconciliationValidationError(…)`
abbrev pub require : Bool → Result (Unit {0})
require b = guard b reconciliation_validation

-- `v not in {…}`
abbrev require_in : List String → Json → Result (Unit {0})
require_in ts v = in_texts ts v >>= require

-- `isinstance(v, int)`: a Boolean is one. The number where it is positive, and otherwise 0.
abbrev pub positive_int : Json → ℕ
positive_int (int (pos n)) = n
positive_int (bool true) = 1
positive_int _ = zero

abbrev is_positive : ℕ → Bool
is_positive zero = false
is_positive (suc _) = true

abbrev is_null_or_str : Json → Bool
is_null_or_str v = is_null v || is_str v

-- The key is absent or its value passes the test.
abbrev optional : Fields → String → (Json → Bool) → Bool
optional fs k test = elim (get fs k) [ none ↦ true | some v ↦ test v ]

abbrev pub as_dict : Json → Result Fields
as_dict (obj fs) = ok fs
as_dict _ = raised reconciliation_validation

abbrev pub as_list : Json → Result Items
as_list (arr vs) = ok vs
as_list _ = raised reconciliation_validation

abbrev is_timestamp : Standard → Json → Bool
is_timestamp std (str s) = elim (parse_iso8601_utc std s) [
  | refused _ ↦ false
  | instant_at _ ↦ true
]
is_timestamp std _ = false

unfoldable pub validate_position : Fields → Result (Unit {0})
validate_position p = do
  require (has_all p ("symbol" ∷ "side" ∷ "qty" ∷ "avg_entry_price" ∷ []))
  require (is_str_nonblank (value p "symbol"))
  require_in ("long" ∷ "short" ∷ "flat" ∷ []) (value p "side")
  require (is_str_nonblank (value p "qty"))
  require (is_null_or_str (value p "avg_entry_price"))

unfoldable pub validate_order : Fields → Result (Unit {0})
validate_order o = do
  require (has_all o ("order_id" ∷ "symbol" ∷ "side" ∷ "type" ∷ "qty" ∷ "price" ∷ []))
  require (is_str_nonblank (value o "order_id"))
  require (is_str_nonblank (value o "symbol"))
  require_in ("buy" ∷ "sell" ∷ []) (value o "side")
  require_in ("limit" ∷ "market" ∷ []) (value o "type")
  require (is_str_nonblank (value o "qty"))
  require (is_null_or_str (value o "price"))
  require (not (is_text (value o "type") "market" && not (is_null (value o "price"))))
  require (not (is_text (value o "type") "limit" && is_null (value o "price")))
  require (optional o "time_in_force" is_str)
  require (optional o "status" is_str)

unfoldable pub validate_orders : Items → Result (Unit {0})
validate_orders nil = ok tt
validate_orders (cons v vs) = (as_dict v >>= validate_order) >> validate_orders vs

abbrev valid_max_age : Json → Bool
valid_max_age null = true
valid_max_age v = is_positive (positive_int v)

unfoldable pub validate_freshness : Json → Result (Unit {0})
validate_freshness null = ok tt
validate_freshness (obj fs) = do
  require (optional fs "position_ts_utc" is_null_or_str)
  require (optional fs "orders_ts_utc" is_null_or_str)
  require (optional fs "max_age_seconds" valid_max_age)
validate_freshness _ = raised reconciliation_validation

unfoldable pub validate_payload : Standard → Fields → Result (Unit {0})
unfolding validate_position validate_order validate_orders validate_freshness
validate_payload std payload = do
  require (
      has_all payload ("schema_version" ∷ "run_id" ∷ "as_of_utc" ∷ "position" ∷ "open_orders" ∷ []))
  require (is_text (value payload "schema_version") "v1")
  require (is_str_nonblank (value payload "run_id"))
  require (is_timestamp std (value payload "as_of_utc"))
  position ← as_dict (value payload "position")
  validate_position position
  open_orders ← as_list (value payload "open_orders")
  validate_orders open_orders
  validate_freshness (value payload "freshness")
  require (optional payload "notes" is_null_or_str)
