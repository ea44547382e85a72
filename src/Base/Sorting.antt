-- ===== src/Base/Sorting.antt =====
-- `sorted` of texts and of lists of texts, and what sorting keeps.
use Prim.Native.Nat.{ℕ, ◌+◌, Ordering}
use Prim.Native.String.{String, compare}
use mathlib.Core.Path.{◌≡◌, refl}
use mathlib.Core.Bool.{Bool, true, false}
use mathlib.Core.List.{List, [], ◌∷◌}
use native.Mathlib.Omega.{arith}
use tradingchassis_ops_lab.Base.Tests.{if◌then◌else◌}

abbrev not_after : Ordering → Bool
not_after Ordering.gt = false
not_after _ = true

-- `s <= t` of texts, and of tuples of texts.
unfoldable pub text_le : String → String → Bool
text_le s t = not_after (compare s t)

unfoldable pub parts_le : List String → List String → Bool
parts_le [] ps = true
parts_le (s ∷ ps) [] = false
parts_le (s ∷ ps) (t ∷ qs) = elim (compare s t) [
  | Ordering.lt ↦ true
  | Ordering.eq ↦ parts_le ps qs
  | Ordering.gt ↦ false
]

abbrev pub one_if : Bool → ℕ
one_if true = 1
one_if false = 0

module _ {A : Type 0} where
  insert_by : (A → A → Bool) → A → List A → List A
  insert_by le s [] = s ∷ []
  insert_by le s (t ∷ ts) = let rest = insert_by le s ts in if le s t then s ∷ t ∷ ts else t ∷ rest

  unfoldable pub sorted_by : (A → A → Bool) → List A → List A
  unfolding insert_by
  sorted_by le [] = []
  sorted_by le (s ∷ ss) = insert_by le s (sorted_by le ss)

  -- How many members pass a test.
  abbrev pub count : (A → Bool) → List A → ℕ
  count f [] = 0
  count f (x ∷ xs) = one_if (f x) + count f xs

  count-insert_by :
      (f : A → Bool) (le : A → A → Bool) (x : A) (xs : List A)
      → count f (insert_by le x xs) ≡ one_if (f x) + count f xs
  unfolding insert_by
  count-insert_by f le x [] = refl
  count-insert_by f le x (y ∷ ys) = ground (arith, count-insert_by f le x ys)

  -- Sorting changes no count.
  pub count-sorted_by :
      (f : A → Bool) (le : A → A → Bool) (xs : List A) → count f (sorted_by le xs) ≡ count f xs
  unfolding sorted_by
  count-sorted_by f le [] = refl
  count-sorted_by f le (x ∷ xs) =
      ground (arith, count-insert_by f le x (sorted_by le xs), count-sorted_by f le xs)

-- `sorted(texts)`
unfoldable pub sorted : List String → List String
unfolding sorted_by text_le
sorted xs = sorted_by text_le xs

pub count-sorted : (f : String → Bool) (xs : List String) → count f (sorted xs) ≡ count f xs
unfolding sorted
count-sorted f xs = count-sorted_by f text_le xs
