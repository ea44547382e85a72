-- ===== src/World/Effects.antt =====
-- Actions that read and change the world, and may raise. What was written before a raise stays.
use tradingchassis_ops_lab.Base.{ℕ, ◌+◌, Bool, true, false, not, ◌&&◌, String, List, [], ◌∷◌}
use tradingchassis_ops_lab.Base.{Option, none, some, ◌==◌, if◌then◌else◌}
use tradingchassis_ops_lab.Base.Json.{Json}
use tradingchassis_ops_lab.World.Content.{Content, undecodable, journal, loads, append_line}

-- The names of a path, innermost first: `root / "a" / "b"` is `"b" ∷ "a" ∷ root`.
abbrev pub FilePath : Type 0
FilePath = List String

abbrev pub same_path : FilePath → FilePath → Bool
same_path [] [] = true
same_path [] (_ ∷ _) = false
same_path (_ ∷ _) [] = false
same_path (s ∷ p) (t ∷ q) = s == t && same_path p q

pub data Entry : Type 0 where
  absent dir : Entry
  file : Content → Entry

-- The classes of the exceptions that leave a function of the program.
pub data Exception : Type 0 where
  kill_switch_validation kill_switch_read : Exception
  reconciliation_validation reconciliation_parse reconciliation_artifacts : Exception
  drill_validation drill_artifacts : Exception
  run_spec_load invalid_mode run_artifacts_exist : Exception
  prepared_dataset_not_found unknown_scenario unsupported_dataset file_not_found : Exception
  readiness_artifacts probe_artifacts probe_invalid_target : Exception
  evidence_validation evidence_artifacts observability_validation observability_artifacts :
      Exception
  engine_failure os_error unicode_error : Exception
  type_error attribute_error value_error arithmetic_error : Exception

-- `clock n` is the text of the n-th reading of the clock, `micros n` the same instant as the count
-- of microseconds since the start of the year 1, `uuids n` the n-th random identifier.
-- A path in `unreadable` or `unwritable` fails with an `OSError` on use: on opening it, or in a write
-- after that, which leaves the content `left p` in the file. `resolved p` is `str(p.resolve())`, and
-- `message e` the `str` of an exception.
pub record World : Type 0 where
  pub entry : FilePath → Entry
  pub unreadable : FilePath → Bool
  pub unwritable : FilePath → Bool
  pub left : FilePath → Option Content
  pub env : String → Option String
  pub resolved : FilePath → String
  pub message : Exception → String
  pub clock : ℕ → String
  pub micros : ℕ → ℕ
  pub ticks : ℕ
  pub uuids : ℕ → String
  pub drawn : ℕ

pub data Result {ℓ} (A : Type ℓ) : Type ℓ where
  ok : A → Result A
  raised : Exception → Result A

abbrev pub Action : Type 0 → Type 0
Action A = World → Result A × World

module _ {A : Type 0} where
  unfoldable pub pure : A → Action A
  pure a w = (ok a, w)

  unfoldable pub raise : Exception → Action A
  raise e w = (raised e, w)

  unfoldable pub lift : Result A → Action A
  lift r w = (r, w)

  -- `except OSError as exc: raise E(…) from exc`
  abbrev pub convert : Exception → Result A → Result A
  convert e (raised os_error) = raised e
  convert e r = r

  unfoldable pub os_error_as : Exception → Action A → Action A
  os_error_as e m w = let (r, w') = m w in (convert e r, w')

abbrev pub continue : {A B : Type 0} → Result A → (A → Action B) → Action B
continue (ok a) f w = f a w
continue (raised e) f w = (raised e, w)

-- Opening this opens the actions above too.
infixl 5 ◌>>=◌ ◌>>◌
unfoldable pub ◌>>=◌ : {A B : Type 0} → Action A → (A → Action B) → Action B
unfolding pure raise lift os_error_as
◌>>=◌ m f w = let (r, w') = m w in continue r f w'

abbrev pub ◌>>◌ : {A B : Type 0} → Action A → Action B → Action B
m >> k = m >>= λ _. k

-- `try: m  except Exception as exc: h`
abbrev pub recover : {A : Type 0} → Result A → (Exception → Action A) → Action A
recover (ok a) h w = (ok a, w)
recover (raised e) h w = h e w

unfoldable pub handle : {A : Type 0} → Action A → (Exception → Action A) → Action A
handle m h w = let (r, w') = m w in recover r h w'

abbrev pub guard : Bool → Exception → Result (Unit {0})
guard true e = ok tt
guard false e = raised e

abbrev pub is_file_entry : Entry → Bool
is_file_entry (file _) = true
is_file_entry _ = false

abbrev pub is_dir_entry : Entry → Bool
is_dir_entry dir = true
is_dir_entry _ = false

abbrev pub is_present : Entry → Bool
is_present absent = false
is_present _ = true

-- `path.exists()`, `path.is_file()`, `path.is_dir()`
unfoldable pub exists : FilePath → Action Bool
exists p w = (ok (is_present (w.entry p)), w)

unfoldable pub is_file : FilePath → Action Bool
is_file p w = (ok (is_file_entry (w.entry p)), w)

unfoldable pub is_dir : FilePath → Action Bool
is_dir p w = (ok (is_dir_entry (w.entry p)), w)

abbrev pub set_entry : FilePath → Entry → World → World
set_entry p e w = record w { entry = λ q. if same_path q p then e else w.entry q }

abbrev pub parent : FilePath → FilePath
parent [] = []
parent (_ ∷ p) = p

-- `str(path.resolve())`
unfoldable pub resolve : FilePath → Action String
resolve p w = (ok (w.resolved p), w)

-- `str(exc)`
unfoldable pub message_of : Exception → Action String
message_of e w = (ok (w.message e), w)

-- `path.read_text(encoding="utf-8")`
read_entry : Entry → Result Content
read_entry absent = raised os_error
read_entry dir = raised os_error
read_entry (file undecodable) = raised unicode_error
read_entry (file c) = ok c

unfoldable pub read_text : FilePath → Action Content
unfolding read_entry
read_text p w = if w.unreadable p then (raised os_error, w) else (read_entry (w.entry p), w)

-- The folder of the file is there, and the file is no folder itself.
abbrev pub has_place : World → FilePath → Bool
has_place w p = is_dir_entry (w.entry (parent p)) && not (is_dir_entry (w.entry p))

-- Whether a write succeeds.
unfoldable pub can_write : World → FilePath → Bool
can_write w p = not (w.unwritable p) && has_place w p

-- A write that fails after the file was opened, and one that fails before that.
abbrev pub torn : World → FilePath → Option Content → World
torn w p none = w
torn w p (some c) = if has_place w p then set_entry p (file c) w else w

abbrev pub failed_write : FilePath → World → World
failed_write p w = torn w p (w.left p)

-- `path.write_text(…)`
unfoldable pub write_text : FilePath → Content → Action (Unit {0})
unfolding can_write
write_text p c w =
    if can_write w p then (ok tt, set_entry p (file c) w) else (raised os_error, failed_write p w)

abbrev pub extended : Entry → Json → Content
extended (file c) v = append_line c v
extended _ v = append_line (journal []) v

-- `shutil.copy2(p, q)`, for a `q` that is no folder.
copied : Entry → Result Content
copied (file c) = ok c
copied _ = raised os_error

unfoldable pub copy2 : FilePath → FilePath → Action (Unit {0})
unfolding copied write_text
copy2 p q w =
    if w.unreadable p then (raised os_error, w) else continue (copied (w.entry p)) (write_text q) w

-- `path.open("a")` and one `json.dumps` line.
unfoldable pub append_text : FilePath → Json → Action (Unit {0})
unfolding can_write append_line
append_text p v w =
    if can_write w p
    then (ok tt, set_entry p (file (extended (w.entry p) v)) w)
    else (raised os_error, failed_write p w)

-- One folder of `path.mkdir(parents=True, exist_ok=True)`, its parent being there.
unfoldable pub make_dir : FilePath → Action (Unit {0})
make_dir p w = elim (w.entry p) [
  | absent ↦ if w.unwritable p then (raised os_error, w) else (ok tt, set_entry p dir w)
  | dir ↦ (ok tt, w)
  | file _ ↦ (raised os_error, w)
]

-- `path.mkdir()`
unfoldable pub mkdir : FilePath → Action (Unit {0})
mkdir p w =
    if not (is_present (w.entry p)) && is_dir_entry (w.entry (parent p)) && not (w.unwritable p)
    then (ok tt, set_entry p dir w)
    else (raised os_error, w)

-- `path.mkdir(parents=True, exist_ok=True)`; the root folder is always there.
unfoldable pub make_dirs : FilePath → Action (Unit {0})
unfolding make_dir
make_dirs [] w = (ok tt, w)
make_dirs (s ∷ p) w = (make_dirs p >> make_dir (s ∷ p)) w

-- `datetime.now(UTC).isoformat().replace("+00:00", "Z")`
unfoldable pub utc_now_iso8601 : Action String
utc_now_iso8601 w = (ok (w.clock w.ticks), record w { ticks = w.ticks + 1 })

-- `datetime.now(UTC)`, as microseconds
unfoldable pub datetime_now : Action ℕ
datetime_now w = (ok (w.micros w.ticks), record w { ticks = w.ticks + 1 })

-- `str(uuid4())`
unfoldable pub uuid4 : Action String
uuid4 w = (ok (w.uuids w.drawn), record w { drawn = w.drawn + 1 })

-- `json.loads(path.read_text(…))` with `OSError` and `JSONDecodeError` raised as `e`.
abbrev parse_content : Exception → Content → Result Json
parse_content e c = elim (loads c) [ none ↦ raised e | some v ↦ ok v ]

unfoldable pub read_json : Exception → FilePath → Action Json
unfolding read_text loads
read_json e p = do c ← os_error_as e (read_text p); lift (parse_content e c)
