-- ===== src/World/Content.antt =====
-- What a file holds, as its readers see it: `json.loads` on a whole file, or line by line.
use tradingchassis_ops_lab.Base.{Bool, true, false, String, List, [], ◌∷◌, ◌++◌, Option, none, some}
use tradingchassis_ops_lab.Base.{strip, is_empty, if◌then◌else◌}
use tradingchassis_ops_lab.Base.Json.{Json, arr, obj}
use tradingchassis_ops_lab.Base.Json.{cons, field}

-- A line of a JSONL file: white space, a value on one line, or text that is no JSON value.
pub data Line : Type 0 where
  blank : Line
  entry : Json → Line
  bad : Line

-- `document v` is the text that `json.dumps(v, indent=2, sort_keys=True) + "\n"` writes, or any
-- other layout of it over several lines; `undecodable` bytes are no UTF-8.
pub data Content : Type 0 where
  document : Json → Content
  journal : List Line → Content
  text : String → Content
  undecodable : Content

all_blank : List Line → Bool
all_blank [] = true
all_blank (blank ∷ ls) = all_blank ls
all_blank (_ ∷ ls) = false

-- The value, if a JSONL file happens to hold exactly one.
single : List Line → Option Json
unfolding all_blank
single [] = none
single (blank ∷ ls) = single ls
single (bad ∷ ls) = none
single (entry v ∷ ls) = if all_blank ls then some v else none

-- `json.loads`; `none` is a `JSONDecodeError`.
unfoldable pub loads : Content → Option Json
unfolding single
loads (document v) = some v
loads (journal ls) = single ls
loads (text _) = none
loads undecodable = none

-- A laid-out value takes one line unless it is a container with something in it.
one_line : Json → Bool
one_line (arr (cons _ _)) = false
one_line (obj (field _ _ _)) = false
one_line _ = true

-- `splitlines()`. A reader stops at the first bad line, so one stands for the rest.
unfoldable pub lines_of : Content → List Line
unfolding one_line
lines_of (document v) = if one_line v then entry v ∷ [] else bad ∷ []
lines_of (journal ls) = ls
lines_of (text s) = if is_empty (strip s) then [] else bad ∷ []
lines_of undecodable = bad ∷ []

-- The file after one more line is written at its end.
unfoldable pub append_line : Content → Json → Content
unfolding lines_of
append_line undecodable v = undecodable
append_line c v = journal (lines_of c ++ (entry v ∷ []))
