-- ===== src/Base/Search.antt =====
-- Searching in texts: `in`, `index` and the slices round the first occurrence.
use Prim.Native.Char.{Char}
use Prim.Native.String.{String}
use mathlib.Core.Bool.{Bool, true, false}
use mathlib.Core.Option.{Option, none, some}
use tradingchassis_ops_lab.Base.Tests.{◌==◌, if◌then◌else◌}

abbrev pub same_char : Char → Char → Bool
same_char c d = String.◌∷◌ c "" == String.◌∷◌ d ""

-- What follows a prefix.
unfoldable pub after_prefix : String → String → Option String
after_prefix String.[] s = some s
after_prefix (String.◌∷◌ c p) String.[] = none
after_prefix (String.◌∷◌ c p) (String.◌∷◌ d s) =
    let rest = after_prefix p s in if same_char c d then rest else none

abbrev pub later : Char → Option (String × String) → Option (String × String)
later c none = none
later c (some (b, a)) = some (String.◌∷◌ c b, a)

abbrev pub first_here : Option String → Option (String × String) → Option (String × String)
first_here (some rest) _ = some ("", rest)
first_here none o = o

-- The texts before and after the first occurrence of `p`: `s[:i]` and `s[i + len(p):]` for
-- `i = s.index(p)`.
unfoldable pub split_at : String → String → Option (String × String)
unfolding after_prefix
split_at p String.[] = first_here (after_prefix p "") none
split_at p (String.◌∷◌ c s) =
    let rest = split_at p s in first_here (after_prefix p (String.◌∷◌ c s)) (later c rest)

-- `p in s`
unfoldable pub occurs : String → String → Bool
unfolding split_at
occurs p s = elim (split_at p s) [ none ↦ false | some _ ↦ true ]
