-- ===== src/Base/Segments.antt =====
-- Searching through lines: a text without a line break is found in one of them.
use Prim.Native.Char.{Char, code}
use Prim.Native.String.{String, ◌++◌ as ◌<>◌}
use mathlib.Core.Path.{◌≡◌, refl, sym, ◌∙◌, ap}
use mathlib.Core.Bool.{Bool, true, false, not, ◌&&◌}
use mathlib.Core.Logic.{inl, inr}
use mathlib.Core.Option.{Option, none, some}
use text.Mathlib.TextLemmas.{nil-append, cons-append}
use tradingchassis_ops_lab.Base.Tests.{if◌then◌else◌, Bool-cases, eq_self}
use tradingchassis_ops_lab.Base.Text.{rstrip, strip_tail, is_space, is_empty}
use tradingchassis_ops_lab.Base.Search.{
  same_char, after_prefix, later, first_here, split_at, occurs,
}

-- `s + "\n" + t`
abbrev pub on_lines : String → String → String
on_lines s t = s <> String.◌∷◌ "\n" t

pub break-append : (t : String) → "\n" <> t ≡ String.◌∷◌ "\n" t
break-append t = cons-append "\n" "" t ∙ ap (String.◌∷◌ "\n") (nil-append t)

-- Without a line break.
abbrev breakless : String → Bool
breakless String.[] = true
breakless (String.◌∷◌ c p) = not (same_char c "\n") && breakless p

abbrev pub is_word : String → Bool
is_word p = not (is_empty p) && breakless p

-- The same found in a longer text.
abbrev pub shifted : String → Option (String × String) → Option (String × String)
shifted s none = none
shifted s (some (b, a)) = some (on_lines s b, a)

if_dropped : (b r : Bool) (o : Option String) → (not b && r) ≡ true → (if b then o else none) ≡ none
if_dropped true r o h = cc
if_dropped false r o h = refl

if_kept :
    (b : Bool) (o o' : Option String)
    → (o ≡ none → o' ≡ none)
    → (if b then o else none) ≡ none
    → (if b then o' else none) ≡ none
if_kept true o o' k h = k h
if_kept false o o' k h = refl

and_right : (a b : Bool) → (a && b) ≡ true → b ≡ true
and_right true b h = h
and_right false b h = cc

after_prefix-on_lines :
    (p s t : String)
    → breakless p ≡ true
    → after_prefix p s ≡ none
    → after_prefix p (on_lines s t) ≡ none
unfolding after_prefix
after_prefix-on_lines String.[] s t h k = cc
after_prefix-on_lines (String.◌∷◌ c p) String.[] t h k =
    rw (nil-append (String.◌∷◌ "\n" t))
      (if_dropped (same_char c "\n") (breakless p) (after_prefix p t) h)
after_prefix-on_lines (String.◌∷◌ c p) (String.◌∷◌ d s) t h k =
    rw (cons-append d s (String.◌∷◌ "\n" t))
      (if_kept (same_char c d) _ _ (after_prefix-on_lines p s t (and_right _ _ h)) k)

after_prefix_self : (p t : String) → after_prefix p (p <> t) ≡ some t
unfolding after_prefix
after_prefix_self String.[] t = rw (nil-append t) refl
after_prefix_self (String.◌∷◌ c p) t =
    rw (cons-append c p t) (rw (eq_self (String.◌∷◌ c "")) (after_prefix_self p t))

pub rstrip-break : (s : String) → rstrip (s <> "\n") ≡ rstrip s
unfolding rstrip is_space
rstrip-break String.[] = refl
rstrip-break (String.◌∷◌ c s) = rw (cons-append c s "\n") (rw (rstrip-break s) refl)

-- Nothing is found at the front of what does not hold it.
missed_here :
    (o : Option String) (c : Char) (q : Option (String × String))
    → (elim (first_here o (later c q)) as (λ _. Bool) [ none ↦ false | some _ ↦ true ]) ≡ false
    → (o ≡ none) × ((elim q as (λ _. Bool) [ none ↦ false | some _ ↦ true ]) ≡ false)
missed_here none c none h = (refl, refl)
missed_here none c (some x) h = cc
missed_here (some r) c q h = cc

first_here-none : (o : Option String) (q : Option (String × String)) → o ≡ none → first_here o q ≡ q
first_here-none none q h = refl
first_here-none (some r) q h = cc

later-shifted_nil : (q : Option (String × String)) → later "\n" q ≡ shifted "" q
later-shifted_nil none = refl
later-shifted_nil (some (b, a)) = rw (nil-append (String.◌∷◌ "\n" b)) refl

later-shifted :
    (c : Char) (s : String) (q : Option (String × String))
    → later c (shifted s q) ≡ shifted (String.◌∷◌ c s) q
later-shifted c s none = refl
later-shifted c s (some (b, a)) = rw (cons-append c s (String.◌∷◌ "\n" b)) refl

word_at_break : (p t : String) → is_word p ≡ true → after_prefix p (String.◌∷◌ "\n" t) ≡ none
unfolding after_prefix
word_at_break String.[] t h = cc
word_at_break (String.◌∷◌ c p) t h =
    if_dropped (same_char c "\n") (breakless p) (after_prefix p t) h

pub split_at-on_lines :
    (p s t : String)
    → is_word p ≡ true
    → occurs p s ≡ false
    → split_at p (on_lines s t) ≡ shifted s (split_at p t)
unfolding split_at occurs
split_at-on_lines p String.[] t h k =
    rw (nil-append (String.◌∷◌ "\n" t))
      (first_here-none _ _ (word_at_break p t h) ∙ later-shifted_nil (split_at p t))
split_at-on_lines p (String.◌∷◌ c s) t h k = rw (cons-append c s (String.◌∷◌ "\n" t)) (
    let m = missed_here (after_prefix p (String.◌∷◌ c s)) c (split_at p s) k in
    first_here-none _ _ (
      ap (after_prefix p) (sym (cons-append c s (String.◌∷◌ "\n" t)))
      ∙ after_prefix-on_lines p (String.◌∷◌ c s) t (and_right _ _ h) m.0)
    ∙ ap (later c) (split_at-on_lines p s t h m.1)
    ∙ later-shifted c s (split_at p t))

pub split_at_self : (p t : String) → is_word p ≡ true → split_at p (p <> t) ≡ some ("", t)
unfolding split_at
split_at_self String.[] t h = cc
split_at_self (String.◌∷◌ c p) t h =
    rw (cons-append c p t) (rw (eq_self (String.◌∷◌ c "")) (rw (after_prefix_self p t) refl))

-- What a text does not hold, no beginning of it holds.
after_prefix-left : (p u v : String) → after_prefix p (u <> v) ≡ none → after_prefix p u ≡ none
unfolding after_prefix
after_prefix-left String.[] u v h = cc
after_prefix-left (String.◌∷◌ c p) String.[] v h = refl
after_prefix-left (String.◌∷◌ c p) (String.◌∷◌ d u) v h =
    if_kept (same_char c d) _ _ (after_prefix-left p u v)
      (ap (after_prefix (String.◌∷◌ c p)) (sym (cons-append d u v)) ∙ h)

abbrev is_found : Option (String × String) → Bool
is_found none = false
is_found (some _) = true

front_missed : (p v : String) → occurs p v ≡ false → after_prefix p v ≡ none
unfolding occurs split_at
front_missed p String.[] h =
    (missed_here (after_prefix p "") "\n" none (elim_later (after_prefix p "") h)).0
  where
    elim_later :
        (o : Option String)
        → is_found (first_here o none) ≡ false
        → is_found (first_here o (later "\n" none)) ≡ false
    elim_later o h = h
front_missed p (String.◌∷◌ c v) h =
    (missed_here (after_prefix p (String.◌∷◌ c v)) c (split_at p v) h).0

missed :
    (o : Option String) (c : Char) (q : Option (String × String))
    → o ≡ none
    → is_found q ≡ false
    → is_found (first_here o (later c q)) ≡ false
missed none c none e h = refl
missed none c (some x) e h = cc
missed (some r) c q e h = cc

occurs_left : (p u v : String) → occurs p (u <> v) ≡ false → occurs p u ≡ false
unfolding occurs split_at
occurs_left p String.[] v h =
    missed (after_prefix p "") "\n" none (after_prefix-left p "" v (front_missed p ("" <> v) h))
      refl
occurs_left p (String.◌∷◌ d u) v h =
    let m =
      missed_here (after_prefix p (String.◌∷◌ d (u <> v))) d (split_at p (u <> v))
        (ap (occurs p) (sym (cons-append d u v)) ∙ h) in
    missed (after_prefix p (String.◌∷◌ d u)) d (split_at p u)
      (after_prefix-left p (String.◌∷◌ d u) v (ap (after_prefix p) (cons-append d u v) ∙ m.0))
      (occurs_left p u v m.1)

rstrip-suffix : (s : String) → (t : String) × (s ≡ rstrip s <> t)
unfolding rstrip
rstrip-suffix String.[] = ("", sym (nil-append ""))
rstrip-suffix (String.◌∷◌ c s) = let (t, e) = rstrip-suffix s in at_tail c s (rstrip s) t e
  where
    at_tail :
        (c : Char) (s r t : String)
        → s ≡ r <> t
        → (t : String) × (String.◌∷◌ c s ≡ strip_tail c r <> t)
    at_tail c s r t e = elim (Bool-cases (is_empty r && is_space (code c))) [
      | inl dropped ↦ (String.◌∷◌ c s, rw dropped (sym (nil-append _)))
      | inr kept ↦ (t, rw kept (ap (String.◌∷◌ c) e ∙ sym (cons-append c r t)))
    ]

pub occurs-rstrip : (p s : String) → occurs p s ≡ false → occurs p (rstrip s) ≡ false
occurs-rstrip p s h =
    let (t, e) = rstrip-suffix s in occurs_left p (rstrip s) t (ap (occurs p) (sym e) ∙ h)

pub occurs-nil : (p : String) → is_word p ≡ true → occurs p "" ≡ false
unfolding occurs split_at after_prefix
occurs-nil String.[] h = cc
occurs-nil (String.◌∷◌ c p) h = refl
