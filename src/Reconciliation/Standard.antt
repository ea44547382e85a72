-- ===== src/Reconciliation/Standard.antt =====
-- What reconciliation/checks.py uses of Python's decimals and dates, and its renderings of them.
use Prim.Native.Char.{Char, code}
use tradingchassis_ops_lab.Base.{
  ℕ, String, ◌<>◌, Bool, false, ◌&&◌, ◌||◌, Option, none, some, if◌then◌else◌, ◌==◌, eqb, strip,
  is_empty,
}

-- A `Decimal` as the code sees it: `format(d, "f")`, and whether `d == 0`, which raises
-- `InvalidOperation` on a signaling NaN.
pub record Decimal : Type 0 where
  pub fixed : String
  pub is_zero : Option Bool

-- A `datetime`: whether it has a time zone, and its instant in microseconds.
pub record Moment : Type 0 where
  pub aware : Bool
  pub instant : ℕ

-- `Decimal(s)` and `datetime.fromisoformat(s)` with `none` where they raise, `repr` of a text, and
-- `isoformat()` of an instant in UTC with its offset written as `Z`.
pub record Standard : Type 0 where
  pub parse : String → Option Decimal
  pub fromisoformat : String → Option Moment
  pub repr : String → String
  pub isoformat_z : ℕ → String

-- `c in s`, `s.rstrip(c)` and `s.replace(c, t)` for one character
abbrev has_char : ℕ → String → Bool
has_char c String.[] = false
has_char c (String.◌∷◌ d s) = eqb c (code d) || has_char c s

abbrev rstrip_char_tail : ℕ → Char → String → String
rstrip_char_tail c d rest = if is_empty rest && eqb c (code d) then "" else String.◌∷◌ d rest

unfoldable pub rstrip_char : ℕ → String → String
rstrip_char c String.[] = ""
rstrip_char c (String.◌∷◌ d s) = rstrip_char_tail c d (rstrip_char c s)

unfoldable pub replace_char : ℕ → String → String → String
replace_char c t String.[] = ""
replace_char c t (String.◌∷◌ d s) =
    let rest = replace_char c t s in if eqb c (code d) then t <> rest else String.◌∷◌ d rest

-- `_render_decimal`
abbrev trimmed_fraction : String → String
trimmed_fraction s = if has_char b'.' s then rstrip_char b'.' (rstrip_char b'0' s) else s

abbrev zero_text : String → String
zero_text s = if is_empty s || s == "-0" then "0" else s

unfoldable pub render_decimal : Decimal → String
unfolding rstrip_char
render_decimal d = zero_text (trimmed_fraction d.fixed)

-- What `_parse_iso8601_utc` makes of a text: an instant, or an error whose text goes on so after the
-- name of the field.
pub data Parsed : Type 0 where
  instant_at : ℕ → Parsed
  refused : String → Parsed

abbrev instant_of : Option Moment → Parsed
instant_of none = refused " must be valid ISO-8601 timestamp."
instant_of (some m) =
    if m.aware then instant_at m.instant else refused " must include timezone information."

unfoldable pub parse_iso8601_utc : Standard → String → Parsed
unfolding replace_char
parse_iso8601_utc std raw =
    if is_empty (strip raw)
    then refused " must be a non-empty timestamp string."
    else instant_of (std.fromisoformat (replace_char b'Z' "+00:00" (strip raw)))
