-- ===== src/Base/Json.antt =====
-- JSON values as Python's `json` reads them, and the dictionary operations on JSON objects.
-- Keys of an object are distinct, so the first entry of a key is its value.
use Prim.Native.Nat.{ℕ, zero, suc, ◌+◌, ◌/◌, ◌%◌}
use Prim.Native.String.{String, ◌++◌ as ◌<>◌}
use mathlib.Core.Path.{◌≡◌, refl}
use mathlib.Core.Bool.{Bool, true, false, not}
use mathlib.Core.Option.{Option, none, some}
use mathlib.Core.List.{List, [], ◌∷◌}
use native.Mathlib.Omega.{arith}
use text.Mathlib.TextEquality.{eq_iff}
use tradingchassis_ops_lab.Base.Tests.{ltb, ◌==◌, if◌then◌else◌}
use tradingchassis_ops_lab.Base.Text.{is_empty, strip}

-- Python's unbounded integers; `negsuc n` is -(n + 1).
pub data ℤ : Type 0 where
  pos : ℕ → ℤ
  negsuc : ℕ → ℤ

-- `float` holds the bit pattern of the double.
mutual
  pub data Json : Type 0 where
    null : Json
    bool : Bool → Json
    int : ℤ → Json
    float : ℕ → Json
    str : String → Json
    arr : Items → Json
    obj : Fields → Json

  pub data Items : Type 0 where
    nil : Items
    cons : Json → Items → Items

  pub data Fields : Type 0 where
    end : Fields
    field : String → Json → Fields → Fields

-- `d.get(k)`
unfoldable pub get : Fields → String → Option Json
get end k = none
get (field j v fs) k = if k == j then some v else get fs k

-- `d[k] = v`
unfoldable pub put : String → Json → Fields → Fields
put k v end = field k v end
put k v (field j w fs) = if k == j then field j v fs else field j w (put k v fs)

pub get-put :
    (k j : String) (v : Json) (fs : Fields)
    → get (put k v fs) j ≡ (if j == k then some v else get fs j)
unfolding get put
get-put k j v end = refl
get-put k j v (field i w fs) = ground (arith, eq_iff j k, eq_iff k i, eq_iff j i, get-put k j v fs)

-- `k in d`
abbrev pub has : Fields → String → Bool
has fs k = elim (get fs k) [ none ↦ false | some _ ↦ true ]

-- `required - d.keys()` is empty.
abbrev pub has_all : Fields → List String → Bool
has_all fs [] = true
has_all fs (k ∷ ks) = if has fs k then has_all fs ks else false

abbrev pub items_of : List Json → Items
items_of [] = nil
items_of (j ∷ js) = cons j (items_of js)

-- A value that is `str` or `None`, as `json.dumps` writes it.
abbrev pub opt_str : Option String → Json
opt_str none = null
opt_str (some s) = str s

-- `isinstance(v, str)`, `isinstance(v, str) and v`, `isinstance(v, str) and v.strip()`
abbrev pub is_str : Json → Bool
is_str (str _) = true
is_str _ = false

abbrev pub is_str_truthy : Json → Bool
is_str_truthy (str s) = not (is_empty s)
is_str_truthy _ = false

abbrev pub is_str_nonblank : Json → Bool
is_str_nonblank (str s) = not (is_empty (strip s))
is_str_nonblank _ = false

-- `v is None`
abbrev pub is_null : Json → Bool
is_null null = true
is_null _ = false

-- `v == s` for a text `s`
abbrev pub is_text : Json → String → Bool
is_text (str t) s = t == s
is_text _ s = false

-- A dictionary display.
abbrev pub dict : List (String × Json) → Fields
dict [] = end
dict (e ∷ es) = field e.0 e.1 (dict es)

-- `d.update(extra)`
unfoldable pub update : Fields → Fields → Fields
unfolding put
update fs end = fs
update fs (field k v es) = update (put k v fs) es

-- `str(n)` for a number that is not negative.
abbrev nth_text : List String → ℕ → String
nth_text [] n = ""
nth_text (t ∷ ts) zero = t
nth_text (t ∷ ts) (suc n) = nth_text ts n

abbrev digit : ℕ → String
digit = nth_text ("0" ∷ "1" ∷ "2" ∷ "3" ∷ "4" ∷ "5" ∷ "6" ∷ "7" ∷ "8" ∷ "9" ∷ [])

decimal_within : ℕ → ℕ → String
decimal_within zero n = digit n
decimal_within (suc fuel) n =
    if ltb n 10 then digit n else decimal_within fuel (n / 10) <> digit (n % 10)

-- A number has at most as many digits as it counts to, and one.
unfoldable pub decimal : ℕ → String
unfolding decimal_within
decimal n = decimal_within n n

-- `f"{z}"` and `f"{b}"`
unfoldable pub int_text : ℤ → String
unfolding decimal
int_text (pos n) = decimal n
int_text (negsuc n) = "-" <> decimal (n + 1)

abbrev pub bool_text : Bool → String
bool_text true = "True"
bool_text false = "False"
