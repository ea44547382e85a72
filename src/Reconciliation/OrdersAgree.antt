-- ===== src/Reconciliation/OrdersAgree.antt =====
-- When open orders agree.
use tradingchassis_ops_lab.Base.{
  String, Bool, true, false, not, Option, none, some, List, [], ◌∷◌, ◌≡◌, ◌↔◌, refl, sym, ◌∙◌,
  arith,
}
use tradingchassis_ops_lab.Base.Json.{Items}
use tradingchassis_ops_lab.Base.Sorting.{sorted, count, count-sorted}
use tradingchassis_ops_lab.Base.Counting.{none_counted}
use tradingchassis_ops_lab.World.Effects.{ok}
use tradingchassis_ops_lab.Reconciliation.Standard.{Standard}
use tradingchassis_ops_lab.Reconciliation.Checks.{Check, fine, mismatch, done, ◌>>=◌}
use tradingchassis_ops_lab.Reconciliation.Agreement.{nil-append, check_by_deltas-decides}
use tradingchassis_ops_lab.Reconciliation.Orders.{
  Order, OrdersById, ids, find, keep, order_deltas, deltas_at, deltas_of_all, ids_delta,
  orders_deltas, canonicalize_open_orders, compare_open_orders,
}
use tradingchassis_ops_lab.Reconciliation.SameOrder.{
  SameOrder, SameOrder-of_deltas, deltas_of_SameOrder,
}
use tradingchassis_ops_lab.Reconciliation.OrderIds.{
  found, contains-ids, nil-keep, keep-nil, contains-keep, nil-sorted,
}

abbrev pub MatchAt : Option Order → Option Order → Type 0
MatchAt none none = Unit
MatchAt (some a) (some b) = SameOrder a b
MatchAt none (some b) = ⊥
MatchAt (some a) none = ⊥

-- Under each id, both sides have the same order, or none.
abbrev pub Agree : OrdersById → OrdersById → Type 0
Agree es os = (id : String) → MatchAt (find es id) (find os id)

abbrev is_nil : List String → Bool
is_nil [] = true
is_nil (_ ∷ _) = false

nil_of_is_nil : (xs : List String) → not (is_nil xs) ≡ false → xs ≡ []
nil_of_is_nil [] h = refl
nil_of_is_nil (x ∷ xs) h = cc

module _ (std : Standard) where
  module _ (es os : OrdersById) where
    -- An id under which the orders differ.
    abbrev differs : String → Bool
    differs id = not (is_nil (deltas_at std es os id))

    none_differs :
        (names : List String) → deltas_of_all std es os names ≡ [] → count differs names ≡ 0
    unfolding deltas_of_all
    none_differs [] h = refl
    none_differs (id ∷ names) h =
        let (here, later) = nil-append (deltas_at std es os id) _ h in
        rw here (omega (arith, none_differs names later))

    no_deltas :
        (names : List String)
        → ((id : String) → deltas_at std es os id ≡ [])
        → deltas_of_all std es os names ≡ []
    unfolding deltas_of_all
    no_deltas [] h = refl
    no_deltas (id ∷ names) h = rw (h id) (no_deltas names h)

    deltas_at_of_MatchAt :
        (id : String) → MatchAt (find es id) (find os id) → deltas_at std es os id ≡ []
    deltas_at_of_MatchAt id h = at_options (find es id) (find os id) h
      where
        at_options :
            (a b : Option Order)
            → MatchAt a b
            → (elim a [
              | none ↦ []
              | some e ↦ elim b [ none ↦ [] | some o ↦ order_deltas std id e o ]
            ])
              ≡ []
        at_options none b h = refl
        at_options (some a) none h = refl
        at_options (some a) (some b) h = deltas_of_SameOrder std id a b h

    deltas_at-both :
        (id : String) {a b : Order}
        → find es id ≡ some a
        → find os id ≡ some b
        → deltas_at std es os id ≡ order_deltas std id a b
    deltas_at-both id e o = rw (e, deltas_at) (rw o refl)

    Agree-of_nil : orders_deltas std es os ≡ [] → Agree es os
    unfolding orders_deltas
    Agree-of_nil h id =
        let (missing, rest) = nil-append _ _ h in
        let (extra, deltas) = nil-append _ _ rest in
        let names = keep true (ids es) (ids os) in
        match_by (find es id) (find os id) refl refl
          (λ k.
            sym (contains-ids os id)
            ∙ nil-keep (ids es) (ids os) id (nil-sorted _ (nil-ids_delta _ _ missing))
                (contains-ids es id ∙ k))
          (λ k.
            sym (contains-ids es id)
            ∙ nil-keep (ids os) (ids es) id (nil-sorted _ (nil-ids_delta _ _ extra))
                (contains-ids os id ∙ k))
          (λ k l. nil_of_is_nil (deltas_at std es os id) (
            none_counted differs names
              (sym (count-sorted differs names) ∙ none_differs (sorted names) deltas) id
              (contains-keep (ids es) (ids os) id (contains-ids es id ∙ k)
                (contains-ids os id ∙ l))))
      where
        nil-ids_delta : (label : String) (xs : List String) → ids_delta std label xs ≡ [] → xs ≡ []
        nil-ids_delta label [] h = refl
        nil-ids_delta label (x ∷ xs) h = cc

        match_by :
            (a b : Option Order)
            → find es id ≡ a
            → find os id ≡ b
            → (found (find es id) ≡ true → found (find os id) ≡ true)
            → (found (find os id) ≡ true → found (find es id) ≡ true)
            → (found (find es id) ≡ true → found (find os id) ≡ true → deltas_at std es os id ≡ [])
            → MatchAt a b
        match_by none none e o h k d = tt
        match_by none (some b) e o h k d = ground arith
        match_by (some a) none e o h k d = ground arith
        match_by (some a) (some b) e o h k d =
            SameOrder-of_deltas std id a b (sym (deltas_at-both id e o) ∙ d (rw e refl) (rw o refl))

    nil_of_Agree : Agree es os → orders_deltas std es os ≡ []
    unfolding orders_deltas sorted
    nil_of_Agree h =
        rw
          (keep-nil (ids es) (ids os) (λ id k.
            contains-ids os id
            ∙ both (find es id) (find os id) (h id) (sym (contains-ids es id) ∙ k)))
          (rw
            (keep-nil (ids os) (ids es) (λ id k.
              contains-ids es id
              ∙ both' (find es id) (find os id) (h id) (sym (contains-ids os id) ∙ k)))
            (no_deltas _ (λ id. deltas_at_of_MatchAt id (h id))))
      where
        both : (a b : Option Order) → MatchAt a b → found a ≡ true → found b ≡ true
        both none b h k = cc
        both (some a) none h k = absurd h
        both (some a) (some b) h k = refl

        both' : (a b : Option Order) → MatchAt a b → found b ≡ true → found a ≡ true
        both' a none h k = cc
        both' none (some b) h k = absurd h
        both' (some a) (some b) h k = refl

  -- Two lists of open orders with canonical forms: the comparison gives a check that is fine exactly if
  -- under each id both forms have no order, or orders with the same symbol, side, type, quantity and
  -- price whose time in force and status are the same where both sides give them; and a mismatch
  -- exactly if not.
  pub compare_open_orders-decides :
      (e o : Items) {c d : OrdersById}
      → canonicalize_open_orders std e "expected.open_orders" ≡ done c
      → canonicalize_open_orders std o "observed.open_orders" ≡ done d
      → (k : Check) × (compare_open_orders std e o ≡ ok k)
        × ((k.severity ≡ fine) ↔ Agree c d)
        × ((k.severity ≡ mismatch) ↔ (¬ Agree c d))
  unfolding compare_open_orders ◌>>=◌
  compare_open_orders-decides e o {c} {d} he ho = rw he (
      rw ho (
        check_by_deltas-decides std "open_orders" "open orders matched" (orders_deltas std c d)
          (Agree-of_nil c d, nil_of_Agree c d)))
