-- ===== src/Evidence/Cells.antt =====
-- `_render_value` and `_escape_table_cell` of evidence/render.py, and what Python does to walk over
-- a JSON value and to test it.
use tradingchassis_ops_lab.Base.{
  ℕ, String, ◌<>◌, Bool, true, false, not, ◌||◌, List, [], ◌∷◌, map, eqb, is_empty, if◌then◌else◌,
}
use Prim.Native.Char.{code}
use tradingchassis_ops_lab.Base.Sorting.{sorted_by, text_le}
use tradingchassis_ops_lab.Base.Json.{
  Json, null, bool, int, float, pos, negsuc, str, arr, obj, Items, nil, cons, Fields, end, field,
  int_text,
}
use tradingchassis_ops_lab.World.Effects.{Result, ok, raised, type_error, attribute_error}
use tradingchassis_ops_lab.Evidence.Load.{Python}
use tradingchassis_ops_lab.Evidence.Payloads.{joined}

abbrev pub or_else : String → String → String
or_else s t = if is_empty s then t else s

abbrev shown : String × String → String
shown e = e.0 <> "=" <> e.1

abbrev pub texts_or : String → List String → String
texts_or s [] = s
texts_or s (t ∷ ts) = joined (t ∷ ts)

unfoldable mutual
  unfolding int_text sorted_by text_le

  pub render_value : Python → Json → String
  render_value py null = "null"
  render_value py (bool true) = "true"
  render_value py (bool false) = "false"
  render_value py (int z) = int_text z
  render_value py (float x) = py.str_of (float x)
  render_value py (str s) = s
  render_value py (arr js) = texts_or "-" (render_items py js)
  render_value py (obj fs) =
      texts_or "{}" (map shown (sorted_by (λ e e'. text_le e.0 e'.0) (render_fields py fs)))

  pub render_items : Python → Items → List String
  render_items py nil = []
  render_items py (cons j js) = render_value py j ∷ render_items py js

  pub render_fields : Python → Fields → List (String × String)
  render_fields py end = []
  render_fields py (field k v fs) = (k, render_value py v) ∷ render_fields py fs

-- `s.replace(c, t)` for one character, by its code.
abbrev pub replace_code : ℕ → String → String → String
replace_code c t String.[] = ""
replace_code c t (String.◌∷◌ d s) =
    let rest = replace_code c t s in if eqb (code d) c then t <> rest else String.◌∷◌ d rest

unfoldable pub escape_table_cell : Python → Json → String
unfolding render_value
escape_table_cell py value = replace_code 10 " " (replace_code 124 "\\|" (render_value py value))

-- The members that `for x in v` runs through.
abbrev characters : String → List Json
characters String.[] = []
characters (String.◌∷◌ c s) = str (String.◌∷◌ c String.[]) ∷ characters s

abbrev listed : Items → List Json
listed nil = []
listed (cons j js) = j ∷ listed js

abbrev pub keys : Fields → List String
keys end = []
keys (field k v fs) = k ∷ keys fs

abbrev pub members : Json → Result (List Json)
members (arr js) = ok (listed js)
members (str s) = ok (characters s)
members (obj fs) = ok (map str (keys fs))
members _ = raised type_error

-- `v.get` and `v.keys` need a dictionary.
abbrev pub as_dict : Json → Result Fields
as_dict (obj fs) = ok fs
as_dict _ = raised attribute_error

-- `if v`; a double is false at the two zeros.
abbrev pub truthy : Json → Bool
truthy null = false
truthy (bool b) = b
truthy (int (pos n)) = not (eqb n 0)
truthy (int (negsuc n)) = true
truthy (float x) = not (eqb x 0 || eqb x 9223372036854775808)
truthy (str s) = not (is_empty s)
truthy (arr nil) = false
truthy (arr (cons _ _)) = true
truthy (obj end) = false
truthy (obj (field _ _ _)) = true
