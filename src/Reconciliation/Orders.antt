-- ===== src/Reconciliation/Orders.antt =====
-- `_canonicalize_open_orders` and `_compare_open_orders`.
use tradingchassis_ops_lab.Base.{
  String, ◌<>◌, Bool, true, false, Option, none, some, List, [], ◌∷◌, ◌++◌, map, if◌then◌else◌,
  ◌==◌, strip, contains,
}
use tradingchassis_ops_lab.Base.Sorting.{sorted}
use tradingchassis_ops_lab.Base.Json.{obj, Items, nil, cons}
use tradingchassis_ops_lab.World.Effects.{Result}
use tradingchassis_ops_lab.Reconciliation.Standard.{Standard, render_decimal}
use tradingchassis_ops_lab.Reconciliation.Checks.{
  Check, Attempt, done, incomparable, ◌>>=◌, ◌>>◌, text_at, opt_text_at, same_option, join,
  repr_option, parse_decimal, parse_optional_decimal, render_optional, check_by_deltas,
}

pub record Order : Type 0 where
  pub symbol : String
  pub side : String
  pub order_type : String
  pub qty : String
  pub price : Option String
  pub time_in_force : Option String
  pub status : Option String

-- The orders by their ids, in the order of the file; no id is there twice.
abbrev pub OrdersById : Type 0
OrdersById = List (String × Order)

abbrev pub ids : OrdersById → List String
ids [] = []
ids (e ∷ es) = e.0 ∷ ids es

unfoldable pub find : OrdersById → String → Option Order
find [] id = none
find (e ∷ es) id = if id == e.0 then some e.1 else find es id

-- The members of a list that are, or are not, members of another.
unfoldable pub keep : Bool → List String → List String → List String
keep inside [] ys = []
keep inside (x ∷ xs) ys =
    let rest = keep inside xs ys in
    if contains ys x
    then (if inside then x ∷ rest else rest)
    else (if inside then rest else x ∷ rest)

module _ (std : Standard) where
  -- The orders so far are `seen`, the latest first.
  unfoldable pub canonicalize_from : String → OrdersById → Items → Attempt OrdersById
  canonicalize_from label seen nil = done seen
  canonicalize_from label seen (cons (obj order) rest) = do
    let order_id = strip (text_at order "order_id")
    if contains (ids seen) order_id
        then incomparable (label <> " contains duplicate order_id=" <> std.repr order_id <> ".")
        else done tt
    qty ← parse_decimal std (text_at order "qty") (label <> "[" <> order_id <> "].qty")
    price ←
        parse_optional_decimal std (opt_text_at order "price")
          (label <> "[" <> order_id <> "].price")
    canonicalize_from label
        ((
          order_id,
          record {
            symbol = strip (text_at order "symbol");
            side = text_at order "side";
            order_type = text_at order "type";
            qty = render_decimal qty;
            price = render_optional std price;
            time_in_force = opt_text_at order "time_in_force";
            status = opt_text_at order "status";
          },
        )
          ∷ seen)
        rest
  canonicalize_from label seen (cons _ rest) = canonicalize_from label seen rest

  unfoldable pub canonicalize_open_orders : Items → String → Attempt OrdersById
  unfolding canonicalize_from
  canonicalize_open_orders orders label = canonicalize_from label [] orders

  -- `f"{texts}"` for a list of texts
  abbrev pub list_text : List String → String
  list_text ts = "[" <> join ", " (map std.repr ts) <> "]"

  unfoldable pub order_delta : String → String → Option String → Option String → List String
  order_delta id name expected observed =
      if same_option expected observed
      then []
      else ("order_id="
          <> id
          <> " field="
          <> name
          <> " expected="
          <> repr_option std expected
          <> " observed="
          <> repr_option std observed)
        ∷ []

  -- A field that both sides must give to differ.
  unfoldable pub optional_order_delta :
      String → String → Option String → Option String → List String
  unfolding order_delta
  optional_order_delta id name (some e) (some o) = order_delta id name (some e) (some o)
  optional_order_delta id name _ _ = []

  unfoldable pub order_deltas : String → Order → Order → List String
  unfolding order_delta optional_order_delta
  order_deltas id e o =
      order_delta id "symbol" (some e.symbol) (some o.symbol)
      ++ (order_delta id "side" (some e.side) (some o.side)
          ++ (order_delta id "type" (some e.order_type) (some o.order_type)
              ++ (order_delta id "qty" (some e.qty) (some o.qty)
                  ++ (order_delta id "price" e.price o.price
                      ++ (optional_order_delta id "time_in_force" e.time_in_force o.time_in_force
                          ++ optional_order_delta id "status" e.status o.status)))))

  abbrev pub deltas_at : OrdersById → OrdersById → String → List String
  deltas_at es os id = elim (find es id) [
    | none ↦ []
    | some e ↦ elim (find os id) [ none ↦ [] | some o ↦ order_deltas id e o ]
  ]

  unfoldable pub deltas_of_all : OrdersById → OrdersById → List String → List String
  unfolding order_deltas find
  deltas_of_all es os [] = []
  deltas_of_all es os (id ∷ rest) = deltas_at es os id ++ deltas_of_all es os rest

  -- `if ids: deltas.append(f"{label}={ids}")`
  abbrev pub ids_delta : String → List String → List String
  ids_delta label [] = []
  ids_delta label (x ∷ xs) = (label <> "=" <> list_text (x ∷ xs)) ∷ []

  unfoldable pub orders_deltas : OrdersById → OrdersById → List String
  unfolding keep sorted deltas_of_all
  orders_deltas es os =
      ids_delta "missing_in_observed" (sorted (keep false (ids es) (ids os)))
      ++ (ids_delta "extra_in_observed" (sorted (keep false (ids os) (ids es)))
          ++ deltas_of_all es os (sorted (keep true (ids es) (ids os))))

  unfoldable pub compare_open_orders : Items → Items → Result Check
  compare_open_orders expected_orders observed_orders =
      check_by_deltas std "open_orders" "open orders matched" (do
        expected ← canonicalize_open_orders expected_orders "expected.open_orders"
        observed ← canonicalize_open_orders observed_orders "observed.open_orders"
        done (orders_deltas expected observed))
