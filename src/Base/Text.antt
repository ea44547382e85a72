-- ===== src/Base/Text.antt =====
-- What the program uses of Python's `str`: `strip`, and tests for emptiness and membership.
use Prim.Native.Nat.{ℕ}
use Prim.Native.Char.{Char, code}
use Prim.Native.String.{String}
use mathlib.Core.Path.{◌≡◌, refl, ◌∙◌, ap}
use mathlib.Core.Bool.{Bool, true, false, not, ◌&&◌, ◌||◌}
use mathlib.Core.Logic.{inl, inr}
use mathlib.Core.List.{List, [], ◌∷◌}
use native.Mathlib.Omega.{arith}
use tradingchassis_ops_lab.Base.Tests.{leb, eqb, ◌==◌, if◌then◌else◌, Bool-cases}

-- The code points that `str.isspace` accepts, which `str.strip` removes.
unfoldable pub is_space : ℕ → Bool
is_space c =
    (leb 9 c && leb c 13)
    || (leb 28 c && leb c 32)
    || eqb c 133
    || eqb c 160
    || eqb c 5760
    || (leb 8192 c && leb c 8202)
    || eqb c 8232
    || eqb c 8233
    || eqb c 8239
    || eqb c 8287
    || eqb c 12288

abbrev pub is_empty : String → Bool
is_empty String.[] = true
is_empty (String.◌∷◌ _ _) = false

unfoldable pub lstrip : String → String
lstrip String.[] = ""
lstrip (String.◌∷◌ c s) = if is_space (code c) then lstrip s else String.◌∷◌ c s

abbrev pub strip_tail : Char → String → String
strip_tail c rest = if is_empty rest && is_space (code c) then "" else String.◌∷◌ c rest

unfoldable pub rstrip : String → String
rstrip String.[] = ""
rstrip (String.◌∷◌ c s) = strip_tail c (rstrip s)

-- `s.strip()`
unfoldable pub strip : String → String
unfolding lstrip rstrip is_space
strip s = rstrip (lstrip s)

-- `x in {…}` for a set of texts.
abbrev pub contains : List String → String → Bool
contains [] x = false
contains (y ∷ ys) x = x == y || contains ys x

-- The text is empty or begins with what `strip` keeps.
abbrev begins_clean : String → Bool
begins_clean String.[] = true
begins_clean (String.◌∷◌ c _) = not (is_space (code c))

lstrip_of_begins_clean : (s : String) → begins_clean s ≡ true → lstrip s ≡ s
unfolding lstrip
lstrip_of_begins_clean String.[] h = refl
lstrip_of_begins_clean (String.◌∷◌ c s) h = ground arith

begins_clean-lstrip : (s : String) → begins_clean (lstrip s) ≡ true
unfolding lstrip
begins_clean-lstrip String.[] = refl
begins_clean-lstrip (String.◌∷◌ c s) = ground (arith, begins_clean-lstrip s)

begins_clean-rstrip : (s : String) → begins_clean s ≡ true → begins_clean (rstrip s) ≡ true
unfolding rstrip
begins_clean-rstrip String.[] h = refl
begins_clean-rstrip (String.◌∷◌ c s) h = ground arith

rstrip-strip_tail :
    (c : Char) (r : String) → rstrip r ≡ r → rstrip (strip_tail c r) ≡ strip_tail c r
unfolding rstrip
rstrip-strip_tail c r h = elim (Bool-cases (is_empty r && is_space (code c))) [
  | inl dropped ↦ rw dropped
  | inr kept ↦ rw kept (rw h (rw kept))
]

pub rstrip_idem : (s : String) → rstrip (rstrip s) ≡ rstrip s
unfolding rstrip
rstrip_idem String.[] = refl
rstrip_idem (String.◌∷◌ c s) = rstrip-strip_tail c (rstrip s) (rstrip_idem s)

-- Stripping once is enough.
pub strip_idem : (s : String) → strip (strip s) ≡ strip s
unfolding strip
strip_idem s =
    ap rstrip (
      lstrip_of_begins_clean (rstrip (lstrip s))
        (begins_clean-rstrip (lstrip s) (begins_clean-lstrip s)))
    ∙ rstrip_idem (lstrip s)

strip_runs : strip "  a b \n" ≡ "a b"
unfolding strip
strip_runs = refl
