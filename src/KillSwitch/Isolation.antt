-- ===== src/KillSwitch/Isolation.antt =====
-- What activation and clearing do to the status of a run, and of every other run.
use text.Mathlib.TextLemmas.{append_cancel_right}
use tradingchassis_ops_lab.Base.{
  String, ◌<>◌, false, ◌≡◌, ◌≢◌, sym, ◌∙◌, refl, Option, ◌⊎◌, inl, inr, strip, eq_of_ne, arith,
}
use tradingchassis_ops_lab.World.Effects.{FilePath, same_path, World, ok, raised, Exception}
use tradingchassis_ops_lab.World.Paths.{has_slash, pieces-plain}
use tradingchassis_ops_lab.World.Frame.{
  Spares, Spares-bind, Spares-bind-lift, Spares-utc_now_iso8601, Spares-uuid4,
}
use tradingchassis_ops_lab.World.Atomic.{Atomic, Torn, Atomic-bind, Atomic-bind-lift}
use tradingchassis_ops_lab.KillSwitch.Payloads.{KillSwitchState, state_path}
use tradingchassis_ops_lab.KillSwitch.Operations.{
  validate_run_id, get_kill_switch_status, write_state, activate_kill_switch, clear_kill_switch,
}
use tradingchassis_ops_lab.KillSwitch.Frame.{
  Avoids, Avoids-state_path, Avoids-state_path_of_other, Spares-record_change,
  Spares-get_kill_switch_status, Spares-resolve_actor, Atomic-record_change, Atomic-write_state,
}
use tradingchassis_ops_lab.KillSwitch.Status.{eq_strip_of_validate_run_id, status-Same}

state_path-ne :
    (root : FilePath) (i j : String)
    → has_slash i ≡ false
    → has_slash j ≡ false
    → i ≢ j
    → same_path (state_path root j) (state_path root i) ≡ false
state_path-ne root i j plain plain' h = rw (pieces-plain i plain) (
    rw (pieces-plain j plain') (
      rw
        (eq_of_ne (j <> ".state.json") (i <> ".state.json")
          (λ e. h (sym (append_cancel_right _ _ ".state.json" e))))
        refl))

Atomic-write_state_of_run :
    (root : FilePath) (run_id id : String)
    → validate_run_id run_id ≡ ok id
    → (s : KillSwitchState)
    → Atomic (state_path root (strip run_id)) (write_state (state_path root id) s)
Atomic-write_state_of_run root run_id id named s =
    rw (sym (eq_strip_of_validate_run_id run_id id named))
      (Atomic-write_state (state_path root id) s (omega arith))

Avoids-own :
    (root artifacts : FilePath) (run_id id : String)
    → validate_run_id run_id ≡ ok id
    → Avoids (state_path root (strip run_id)) root artifacts id
Avoids-own root artifacts run_id id named =
    rw (sym (eq_strip_of_validate_run_id run_id id named)) (Avoids-state_path root artifacts id)

module _ (run_id reason : String) (actor : Option String) (root artifacts : FilePath) where
  activate-Spares :
      (j : String)
      → has_slash (strip run_id) ≡ false
      → has_slash j ≡ false
      → strip run_id ≢ j
      → Spares (state_path root j) (activate_kill_switch run_id reason actor root artifacts)
  unfolding activate_kill_switch
  activate-Spares j plain plain' h = Spares-bind-lift _ _ λ id named. Spares-bind-lift _ _ λ r _.
      Spares-bind _ _ (Spares-resolve_actor actor) λ a.
        Spares-bind _ _ (Spares-get_kill_switch_status id root) λ status.
          Spares-bind _ _ Spares-utc_now_iso8601 λ ts. Spares-bind _ _ Spares-uuid4 λ event_id.
            let mine = eq_strip_of_validate_run_id run_id id named in
            let one_name : has_slash id ≡ false = rw mine plain in
            Spares-record_change root artifacts id
              (Avoids-state_path_of_other root artifacts id j one_name plain') _ _
              (state_path-ne root id j one_name plain' (λ e. h (sym mine ∙ e)))

  clear-Spares :
      (j : String)
      → has_slash (strip run_id) ≡ false
      → has_slash j ≡ false
      → strip run_id ≢ j
      → Spares (state_path root j) (clear_kill_switch run_id reason actor root artifacts)
  unfolding clear_kill_switch
  clear-Spares j plain plain' h = Spares-bind-lift _ _ λ id named. Spares-bind-lift _ _ λ r _.
      Spares-bind _ _ (Spares-resolve_actor actor) λ a.
        Spares-bind _ _ (Spares-get_kill_switch_status id root) λ status.
          Spares-bind _ _ Spares-utc_now_iso8601 λ ts. Spares-bind _ _ Spares-uuid4 λ event_id.
            let mine = eq_strip_of_validate_run_id run_id id named in
            let one_name : has_slash id ≡ false = rw mine plain in
            Spares-record_change root artifacts id
              (Avoids-state_path_of_other root artifacts id j one_name plain') _ _
              (state_path-ne root id j one_name plain' (λ e. h (sym mine ∙ e)))

  activate-Atomic :
      Atomic
        (state_path root (strip run_id))
        (activate_kill_switch run_id reason actor root artifacts)
  unfolding activate_kill_switch
  activate-Atomic = Atomic-bind-lift _ _ λ id named. Atomic-bind-lift _ _ λ r _.
      Atomic-bind _ _ (Spares-resolve_actor actor) λ a.
        Atomic-bind _ _ (Spares-get_kill_switch_status id root) λ status.
          Atomic-bind _ _ Spares-utc_now_iso8601 λ ts. Atomic-bind _ _ Spares-uuid4 λ event_id.
            Atomic-record_change root artifacts id (Avoids-own root artifacts run_id id named) _ _
              (Atomic-write_state_of_run root run_id id named _)

  clear-Atomic :
      Atomic (state_path root (strip run_id)) (clear_kill_switch run_id reason actor root artifacts)
  unfolding clear_kill_switch
  clear-Atomic = Atomic-bind-lift _ _ λ id named. Atomic-bind-lift _ _ λ r _.
      Atomic-bind _ _ (Spares-resolve_actor actor) λ a.
        Atomic-bind _ _ (Spares-get_kill_switch_status id root) λ status.
          Atomic-bind _ _ Spares-utc_now_iso8601 λ ts. Atomic-bind _ _ Spares-uuid4 λ event_id.
            Atomic-record_change root artifacts id (Avoids-own root artifacts run_id id named) _ _
              (Atomic-write_state_of_run root run_id id named _)

  -- Two ids without a slash that differ without the white space around them: activating the switch
  -- of one run does not change the status of the other, whether the call returns or raises.
  pub activate_isolated :
      (other : String) (w : World)
      → has_slash (strip run_id) ≡ false
      → has_slash (strip other) ≡ false
      → strip run_id ≢ strip other
      → (get_kill_switch_status other root
          (activate_kill_switch run_id reason actor root artifacts w).1).0
        ≡ (get_kill_switch_status other root w).0
  activate_isolated other w plain plain' h =
      status-Same other root w _ ((activate-Spares (strip other) plain plain' h).at w)

  -- Two ids without a slash that differ without the white space around them: clearing the switch of
  -- one run does not change the status of the other, whether the call returns or raises.
  pub clear_isolated :
      (other : String) (w : World)
      → has_slash (strip run_id) ≡ false
      → has_slash (strip other) ≡ false
      → strip run_id ≢ strip other
      → (get_kill_switch_status other root
          (clear_kill_switch run_id reason actor root artifacts w).1).0
        ≡ (get_kill_switch_status other root w).0
  clear_isolated other w plain plain' h =
      status-Same other root w _ ((clear-Spares (strip other) plain plain' h).at w)

  -- An activation that raises leaves the status of its run as it was, unless its write of the state
  -- file broke off once the file was open: the file then holds what that write left.
  pub activate_failed :
      (w : World) (e : Exception)
      → (activate_kill_switch run_id reason actor root artifacts w).0 ≡ raised e
      → ((get_kill_switch_status run_id root
            (activate_kill_switch run_id reason actor root artifacts w).1).0
          ≡ (get_kill_switch_status run_id root w).0)
        ⊎ Torn
            (state_path root (strip run_id))
            w
            (activate_kill_switch run_id reason actor root artifacts w).1
  activate_failed w e h = elim (activate-Atomic.at w e h) [
    | inl same ↦ inl (status-Same run_id root w _ same)
    | inr broken ↦ inr broken
  ]

  -- A clearing that raises leaves the status of its run as it was, unless its write of the state file
  -- broke off once the file was open: the file then holds what that write left.
  pub clear_failed :
      (w : World) (e : Exception)
      → (clear_kill_switch run_id reason actor root artifacts w).0 ≡ raised e
      → ((get_kill_switch_status run_id root
            (clear_kill_switch run_id reason actor root artifacts w).1).0
          ≡ (get_kill_switch_status run_id root w).0)
        ⊎ Torn
            (state_path root (strip run_id))
            w
            (clear_kill_switch run_id reason actor root artifacts w).1
  clear_failed w e h = elim (clear-Atomic.at w e h) [
    | inl same ↦ inl (status-Same run_id root w _ same)
    | inr broken ↦ inr broken
  ]
