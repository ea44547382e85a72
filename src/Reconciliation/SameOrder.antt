-- ===== src/Reconciliation/SameOrder.antt =====
-- When two orders with one id have no deltas.
use tradingchassis_ops_lab.Base.{
  String, Option, none, some, [], ◌≡◌, refl, sym, ap, ◌∙◌, arith, Bool-cases, inl, inr,
}
use tradingchassis_ops_lab.Reconciliation.Standard.{Standard}
use tradingchassis_ops_lab.Reconciliation.Checks.{same_option}
use tradingchassis_ops_lab.Reconciliation.Agreement.{
  same_option_self, eq_of_same_option, nil-append, some-injective,
}
use tradingchassis_ops_lab.Reconciliation.Orders.{
  Order, order_delta, optional_order_delta, order_deltas,
}

-- Values that are only compared if both sides give them.
abbrev pub Compatible : Option String → Option String → Type 0
Compatible (some a) (some b) = a ≡ b
Compatible none b = Unit
Compatible (some a) none = Unit

pub record SameOrder (a b : Order) : Type 0 where
  pub symbol_same : a.symbol ≡ b.symbol
  pub side_same : a.side ≡ b.side
  pub type_same : a.order_type ≡ b.order_type
  pub qty_same : a.qty ≡ b.qty
  pub price_same : a.price ≡ b.price
  pub time_in_force_compatible : Compatible a.time_in_force b.time_in_force
  pub status_compatible : Compatible a.status b.status

module _ (std : Standard) where
  eq_of_order_delta :
      (id name : String) (a b : Option String) → order_delta std id name a b ≡ [] → a ≡ b
  unfolding order_delta
  eq_of_order_delta id name a b h = elim (Bool-cases (same_option a b)) [
    | inl same ↦ eq_of_same_option a b same
    | inr other ↦ ground (arith, h, other)
  ]

  order_delta_self : (id name : String) (o : Option String) → order_delta std id name o o ≡ []
  unfolding order_delta
  order_delta_self id name o = rw (same_option_self o) refl

  order_delta-eq :
      (id name : String) (a b : Option String) → a ≡ b → order_delta std id name a b ≡ []
  order_delta-eq id name a b e =
      ap (λ c. order_delta std id name a c) (sym e) ∙ order_delta_self id name a

  Compatible-of_delta :
      (id name : String) (a b : Option String)
      → optional_order_delta std id name a b ≡ []
      → Compatible a b
  unfolding optional_order_delta
  Compatible-of_delta id name (some a) (some b) h =
      some-injective (eq_of_order_delta id name (some a) (some b) h)
  Compatible-of_delta id name none b h = tt
  Compatible-of_delta id name (some a) none h = tt

  delta_of_Compatible :
      (id name : String) (a b : Option String)
      → Compatible a b
      → optional_order_delta std id name a b ≡ []
  unfolding optional_order_delta
  delta_of_Compatible id name (some a) (some b) h =
      order_delta-eq id name (some a) (some b) (ap some h)
  delta_of_Compatible id name none none h = refl
  delta_of_Compatible id name none (some b) h = refl
  delta_of_Compatible id name (some a) none h = refl

  pub SameOrder-of_deltas :
      (id : String) (a b : Order) → order_deltas std id a b ≡ [] → SameOrder a b
  unfolding order_deltas
  SameOrder-of_deltas id a b h =
      let (symbol, h1) = nil-append _ _ h in
      let (side, h2) = nil-append _ _ h1 in
      let (kind, h3) = nil-append _ _ h2 in
      let (qty, h4) = nil-append _ _ h3 in
      let (price, h5) = nil-append _ _ h4 in
      let (tif, status) = nil-append _ _ h5 in
      record {
        symbol_same = some-injective (eq_of_order_delta id "symbol" _ _ symbol);
        side_same = some-injective (eq_of_order_delta id "side" _ _ side);
        type_same = some-injective (eq_of_order_delta id "type" _ _ kind);
        qty_same = some-injective (eq_of_order_delta id "qty" _ _ qty);
        price_same = eq_of_order_delta id "price" _ _ price;
        time_in_force_compatible = Compatible-of_delta id "time_in_force" _ _ tif;
        status_compatible = Compatible-of_delta id "status" _ _ status;
      }

  pub deltas_of_SameOrder :
      (id : String) (a b : Order) → SameOrder a b → order_deltas std id a b ≡ []
  unfolding order_deltas
  deltas_of_SameOrder id a b h = rw (order_delta-eq id "symbol" _ _ (ap some h.symbol_same)) (
      rw (order_delta-eq id "side" _ _ (ap some h.side_same)) (
        rw (order_delta-eq id "type" _ _ (ap some h.type_same)) (
          rw (order_delta-eq id "qty" _ _ (ap some h.qty_same)) (
            rw (order_delta-eq id "price" _ _ h.price_same) (
              rw (delta_of_Compatible id "time_in_force" _ _ h.time_in_force_compatible)
                (delta_of_Compatible id "status" _ _ h.status_compatible))))))
