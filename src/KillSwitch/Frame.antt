-- ===== src/KillSwitch/Frame.antt =====
-- Which paths the operations of safety/kill_switch.py leave alone.
use Prim.Native.Char.{code}
use mathlib.Core.Path.{subst}
use text.Mathlib.TextLemmas.{nil-append, cons-append}
use tradingchassis_ops_lab.Base.{
  ℕ, ap, sym, refl, ◌∙◌, ◌∷◌, String, ◌<>◌, false, Option, none, some, ◌≡◌, ◌≢◌, ◌<◌, length,
  eq_of_ne, arith,
}
use tradingchassis_ops_lab.World.Paths.{pieces, has_slash, pieces-plain}
use tradingchassis_ops_lab.World.Effects.{FilePath, same_path, parent, Action, pure, ◌>>◌}
use tradingchassis_ops_lab.World.Frame.{
  Spares, Spares-bind, Spares-pure, Spares-write_text, Spares-append_text, Spares-make_dirs,
  Same-refl, spares,
}
use tradingchassis_ops_lab.World.Atomic.{
  Atomic, Atomic-bind, Atomic-bind-pure, Atomic-os_error_as, Atomic-write_text,
}
use tradingchassis_ops_lab.KillSwitch.Payloads.{
  KillSwitchState, KillSwitchEvent, state_path, events_path, artifact_journal_path,
}
use tradingchassis_ops_lab.KillSwitch.Operations.{
  write_state, append_event, append_optional_artifact_journal_event, read_state,
  get_kill_switch_status, resolve_actor,
}

module _ {p : FilePath} where
  pub Spares-read_state : (q : FilePath) → Spares p (read_state q)
  unfolding read_state
  Spares-read_state q = search spares

  pub Spares-get_kill_switch_status :
      (id : String) (root : FilePath) → Spares p (get_kill_switch_status id root)
  unfolding get_kill_switch_status
  Spares-get_kill_switch_status id root = search (spares, Spares-read_state)

  pub Spares-resolve_actor : (actor : Option String) → Spares p (resolve_actor actor)
  unfolding resolve_actor
  Spares-resolve_actor none = record { at = λ w. Same-refl p w }
  Spares-resolve_actor (some actor) = record { at = λ w. Same-refl p w }

  pub Spares-append_event :
      (q : FilePath) (e : KillSwitchEvent)
      → same_path p q ≡ false
      → length (parent q) < length p
      → Spares p (append_event q e)
  unfolding append_event
  Spares-append_event q e h k = search (spares, Spares-append_text, Spares-make_dirs, h, k)

  pub Spares-append_optional :
      (q : FilePath) (e : KillSwitchEvent)
      → same_path p q ≡ false
      → Spares p (append_optional_artifact_journal_event q e)
  unfolding append_optional_artifact_journal_event
  Spares-append_optional q e h = search (spares, Spares-append_text, h) depth 9

  pub Spares-write_state :
      (q : FilePath) (s : KillSwitchState)
      → same_path p q ≡ false
      → length (parent q) < length p
      → Spares p (write_state q s)
  unfolding write_state
  Spares-write_state q s h k = search (spares, Spares-write_text, Spares-make_dirs, h, k)

-- A write of the state that raises before the file is open leaves the state file as it was.
pub Atomic-write_state :
    (q : FilePath) (s : KillSwitchState) → length (parent q) < length q → Atomic q (write_state q s)
unfolding write_state
Atomic-write_state q s h =
    Atomic-os_error_as _ _
      (Atomic-bind _ _ (Spares-make_dirs (parent q) h) (λ _. Atomic-write_text q _))

-- The paths that a run's operations write are not `p`, and `p` lies below their folder.
pub record Avoids (p root artifacts : FilePath) (id : String) : Type 0 where
  pub not_events : same_path p (events_path root id) ≡ false
  pub not_journal : same_path p (artifact_journal_path artifacts id) ≡ false
  pub below : length (parent (events_path root id)) < length p

module _ {p : FilePath} (root artifacts : FilePath) (id : String)
    (a : Avoids p root artifacts id) where
  Spares-events : (e : KillSwitchEvent) → Spares p (append_event (events_path root id) e)
  Spares-events e = Spares-append_event (events_path root id) e a.not_events a.below

  Spares-journal :
      (e : KillSwitchEvent)
      → Spares p (append_optional_artifact_journal_event (artifact_journal_path artifacts id) e)
  Spares-journal e = Spares-append_optional (artifact_journal_path artifacts id) e a.not_journal

  -- The end of both operations: events are appended, then the state is written and returned.
  abbrev record_change : KillSwitchEvent → KillSwitchState → Action KillSwitchState
  record_change e s =
      append_event (events_path root id) e
      >> (append_optional_artifact_journal_event (artifact_journal_path artifacts id) e
          >> (write_state (state_path root id) s >> pure s))

  pub Spares-record_change :
      (e : KillSwitchEvent) (s : KillSwitchState)
      → same_path p (state_path root id) ≡ false
      → Spares p (record_change e s)
  Spares-record_change e s h = Spares-bind _ _ (Spares-events e) λ _.
      Spares-bind _ _ (Spares-journal e) λ _.
        Spares-bind _ _ (Spares-write_state (state_path root id) s h a.below) λ _. Spares-pure s

  pub Atomic-record_change :
      (e : KillSwitchEvent) (s : KillSwitchState)
      → Atomic p (write_state (state_path root id) s)
      → Atomic p (record_change e s)
  Atomic-record_change e s h =
      Atomic-bind _ _ (Spares-events e)
        (λ _. Atomic-bind _ _ (Spares-journal e) (λ _. Atomic-bind-pure _ _ h))

-- The last code point of a text, to tell its files apart.
last_code : ℕ → String → ℕ
last_code d String.[] = d
last_code d (String.◌∷◌ c s) = last_code (code c) s

last_code-append : (d : ℕ) (s t : String) → last_code d (s <> t) ≡ last_code (last_code d s) t
unfolding last_code
last_code-append d String.[] t = rw nil-append
last_code-append d (String.◌∷◌ c s) t = rw cons-append (last_code-append (code c) s t)

events-ne-state : (i j : String) → (i <> ".events.jsonl") ≢ (j <> ".state.json")
unfolding last_code
events-ne-state i j h = ground (
  arith,
  ap (last_code 0) h,
  last_code-append 0 i ".events.jsonl",
  last_code-append 0 j ".state.json",
)

journal-ne-state : (j : String) → ◌≢◌ {A = String} "journal.jsonl" (j <> ".state.json")
unfolding last_code
journal-ne-state j h = ground (arith, ap (last_code 0) h, last_code-append 0 j ".state.json")

-- A file named as a state is, in the folder of a run's state file, is none of the other files that an
-- operation on the run writes.
pub Avoids-state :
    (root artifacts : FilePath) (i j : String)
    → Avoids ((j <> ".state.json") ∷ parent (state_path root i)) root artifacts i
Avoids-state root artifacts i j = record {
  not_events =
      rw
        (eq_of_ne (j <> ".state.json") ((pieces i).1 <> ".events.jsonl")
          (λ e. events-ne-state (pieces i).1 j (sym e)))
        refl;
  not_journal =
      rw (eq_of_ne (j <> ".state.json") "journal.jsonl" (λ e. journal-ne-state j (sym e))) refl;
  below = omega arith;
}

pub Avoids-state_path :
    (root artifacts : FilePath) (i : String) → Avoids (state_path root i) root artifacts i
Avoids-state_path root artifacts i = Avoids-state root artifacts i (pieces i).1

-- The state files of runs whose ids have no slash stand beside each other.
pub state_path-plain :
    (root : FilePath) (i : String)
    → has_slash i ≡ false
    → state_path root i ≡ (i <> ".state.json") ∷ root
state_path-plain root i h = rw (pieces-plain i h) refl

pub Avoids-state_path_of_other :
    (root artifacts : FilePath) (i j : String)
    → has_slash i ≡ false
    → has_slash j ≡ false
    → Avoids (state_path root j) root artifacts i
Avoids-state_path_of_other root artifacts i j h k =
    subst (λ p. Avoids p root artifacts i)
      (ap (λ q. (j <> ".state.json") ∷ parent q) (state_path-plain root i h)
        ∙ sym (state_path-plain root j k))
      (Avoids-state root artifacts i j)
