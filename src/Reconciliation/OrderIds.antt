-- ===== src/Reconciliation/OrderIds.antt =====
-- The ids of open orders: which are missing, and which are on both sides.
use tradingchassis_ops_lab.Base.{
  String, Bool, true, false, ◌||◌, Option, none, some, List, [], ◌∷◌, ◌≡◌, refl, ap, contains,
  arith, eq_iff, eq_self, Bool-cases, inl, inr, ◌==◌,
}
use tradingchassis_ops_lab.Base.Sorting.{sorted, count, count-sorted}
use tradingchassis_ops_lab.Reconciliation.Orders.{Order, OrdersById, ids, find, keep}

abbrev pub found : Option Order → Bool
found none = false
found (some _) = true

pub contains-ids : (es : OrdersById) (id : String) → contains (ids es) id ≡ found (find es id)
unfolding find
contains-ids [] id = refl
contains-ids (e ∷ es) id = elim (Bool-cases (id == e.0)) [
  | inl same ↦ rw same refl
  | inr other ↦ rw other (contains-ids es id)
]

pub nil-keep :
    (xs ys : List String) (x : String)
    → keep false xs ys ≡ []
    → contains xs x ≡ true
    → contains ys x ≡ true
unfolding keep
nil-keep [] ys x h k = cc
nil-keep (y ∷ xs) ys x h k = ground (arith, nil-keep xs ys x, eq_iff x y)

pub keep-nil :
    (xs ys : List String)
    → ((x : String) → contains xs x ≡ true → contains ys x ≡ true)
    → keep false xs ys ≡ []
unfolding keep
keep-nil [] ys h = refl
keep-nil (x ∷ xs) ys h =
    rw (h x (rw (eq_self x) refl)) (keep-nil xs ys (λ y k. h y (or_last (y == x) _ k)))
  where
    or_last : (a b : Bool) → b ≡ true → (a || b) ≡ true
    or_last true b k = refl
    or_last false b k = k

pub contains-keep :
    (xs ys : List String) (x : String)
    → contains xs x ≡ true
    → contains ys x ≡ true
    → contains (keep true xs ys) x ≡ true
unfolding keep
contains-keep [] ys x h k = cc
contains-keep (y ∷ xs) ys x h k = ground (arith, contains-keep xs ys x, eq_iff x y)

pub nil-sorted : (xs : List String) → sorted xs ≡ [] → xs ≡ []
nil-sorted [] h = refl
nil-sorted (x ∷ xs) h =
    absurd (omega (arith, count-sorted (λ _. true) (x ∷ xs), ap (count (λ _. true)) h))
