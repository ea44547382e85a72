-- ===== src/Base/Counting.antt =====
-- Tests that no member of a list passes.
use tradingchassis_ops_lab.Base.{
  ℕ, ◌+◌, String, Bool, true, false, ◌||◌, List, [], ◌∷◌, contains, ◌≡◌, refl, ◌∙◌, ap, ◌==◌, arith,
  eq_iff, eq_self, Bool-cases, inl, inr,
}
use tradingchassis_ops_lab.Base.Sorting.{count, one_if}

first_false : (b : Bool) (n : ℕ) → one_if b + n ≡ 0 → b ≡ false
first_false true n h = absurd (omega arith)
first_false false n h = refl

rest_zero : (b : Bool) (n : ℕ) → one_if b + n ≡ 0 → n ≡ 0
rest_zero b n h = omega arith

or_right : (a b : Bool) → a ≡ false → (a || b) ≡ true → b ≡ true
or_right true b h k = cc
or_right false b h k = k

or_left : (a b : Bool) → b ≡ true → (a || b) ≡ true
or_left true b h = refl
or_left false b h = h

-- A test that none of the members of a list passes.
pub none_counted :
    (f : String → Bool) (xs : List String)
    → count f xs ≡ 0
    → (x : String) → contains xs x ≡ true
    → f x ≡ false
none_counted f [] h x k = cc
none_counted f (y ∷ ys) h x k = elim (Bool-cases (x == y)) [
  | inl same ↦ ap f ((eq_iff x y).0 same) ∙ first_false (f y) (count f ys) h
  | inr other ↦ none_counted f ys (rest_zero (f y) (count f ys) h) x (or_right (x == y) _ other k)
]

pub all_false :
    (f : String → Bool) (xs : List String)
    → ((x : String) → contains xs x ≡ true → f x ≡ false)
    → count f xs ≡ 0
all_false f [] h = refl
all_false f (y ∷ ys) h =
    rw (h y (rw (eq_self y) refl))
      (omega (arith, all_false f ys (λ x k. h x (or_left (x == y) (contains ys x) k))))
