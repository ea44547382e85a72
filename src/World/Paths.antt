-- ===== src/World/Paths.antt =====
-- Joining a text to a path, as `pathlib` and the file system read it: slashes part names, `.` and
-- empty names stand for nothing, `..` is the folder above, and a slash in front leaves the path. The
-- folders on the way are taken to be there, and the working folder to be the topmost one.
use Prim.Native.Char.{Char, code}
use tradingchassis_ops_lab.Base.{
  String, ◌<>◌, Bool, true, false, ◌||◌, List, [], ◌∷◌, ◌≡◌, refl, is_empty, eqb, if◌then◌else◌,
  ◌==◌, arith, Bool-cases, inl, inr,
}
use tradingchassis_ops_lab.World.Effects.{FilePath, parent}

abbrev is_slash : Char → Bool
is_slash c = eqb (code c) 47

abbrev pub has_slash : String → Bool
has_slash String.[] = false
has_slash (String.◌∷◌ c s) = is_slash c || has_slash s

abbrev attach : Bool → Char → List String × String → List String × String
attach true c (ls, f) = ("" ∷ ls, f)
attach false c ([], f) = ([], String.◌∷◌ c f)
attach false c (l ∷ ls, f) = (String.◌∷◌ c l ∷ ls, f)

-- The names before the last slash, and the text after it.
abbrev pub pieces : String → List String × String
pieces String.[] = ([], "")
pieces (String.◌∷◌ c s) = attach (is_slash c) c (pieces s)

abbrev pub step : String → FilePath → FilePath
step name p =
    if is_empty name || name == "." then p else if name == ".." then parent p else name ∷ p

abbrev pub walk : FilePath → List String → FilePath
walk p [] = p
walk p (name ∷ names) = walk (step name p) names

abbrev pub from : FilePath → List String → FilePath
from root [] = root
from root (name ∷ names) = if is_empty name then walk [] names else walk root (name ∷ names)

-- `root / name`
abbrev pub joined_path : FilePath → String → FilePath
joined_path root name = step (pieces name).1 (from root (pieces name).0)

-- `root / f"{name}{suffix}"`, for a suffix without a slash that starts with a dot and a letter
abbrev pub suffixed_path : FilePath → String → String → FilePath
suffixed_path root name suffix = ((pieces name).1 <> suffix) ∷ from root (pieces name).0

-- A text without a slash is one name.
pub pieces-plain : (s : String) → has_slash s ≡ false → pieces s ≡ ([], s)
pieces-plain String.[] h = refl
pieces-plain (String.◌∷◌ c s) h = elim (Bool-cases (is_slash c)) [
  | inl slash ↦ ground arith
  | inr other ↦ rw other (rw (pieces-plain s (ground arith)) refl)
]
