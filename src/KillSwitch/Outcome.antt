-- ===== src/KillSwitch/Outcome.antt =====
-- What activation and clearing leave behind when they return.
use tradingchassis_ops_lab.Base.{
  ℕ, String, false, ◌≡◌, refl, sym, ◌∙◌, Option, some, none, strip, is_empty, arith, [], inl, inr,
}
use tradingchassis_ops_lab.Base.Json.{obj}
use tradingchassis_ops_lab.World.Content.{document}
use tradingchassis_ops_lab.World.Effects.{FilePath, World, ok, file, lift, utc_now_iso8601, uuid4}
use tradingchassis_ops_lab.World.Frame.{Same, Spares-utc_now_iso8601}
use tradingchassis_ops_lab.World.Post.{
  Post, Post-bind, Post-then, Post-use, Post-os_error_as, Post-write_text, Post-pure,
}
use tradingchassis_ops_lab.KillSwitch.Payloads.{
  KillSwitchState, KillSwitchStatus, state_fields, status_of, state_path, state_active,
  state_cleared,
}
use tradingchassis_ops_lab.KillSwitch.Parse.{IsWellFormed}
use tradingchassis_ops_lab.KillSwitch.Operations.{
  validate_run_id, validate_reason, resolve_actor, get_kill_switch_status, write_state,
  activate_kill_switch, clear_kill_switch, activated_state, cleared_state, or_text, user_or_unknown,
}
use tradingchassis_ops_lab.KillSwitch.Frame.{Spares-get_kill_switch_status, Spares-resolve_actor}
use tradingchassis_ops_lab.KillSwitch.Status.{
  eq_strip_of_validate_run_id, status_of_file, status-Same, get_kill_switch_status-strip,
}

-- Readings of the clock and random identifiers are texts that are not empty.
pub record Stamps (w : World) : Type 0 where
  pub clock : (n : ℕ) → is_empty (w.clock n) ≡ false
  pub uuids : (n : ℕ) → is_empty (w.uuids n) ≡ false

Stamps-Same : {p : FilePath} {w w' : World} → Same p w w' → Stamps w → Stamps w'
Stamps-Same h s = record {
  clock = λ n. rw h.clock_same (s.clock n);
  uuids = λ n. rw h.uuids_same (s.uuids n);
}

Stamps-utc_now_iso8601 : (w : World) → Stamps w → Stamps (utc_now_iso8601 w).1
Stamps-utc_now_iso8601 w st = Stamps-Same ((Spares-utc_now_iso8601 {p = []}).at w) st

is_empty-utc_now_iso8601 :
    (w : World) (ts : String) → Stamps w → (utc_now_iso8601 w).0 ≡ ok ts → is_empty ts ≡ false
unfolding utc_now_iso8601
is_empty-utc_now_iso8601 w ts st h = ground (arith, st.clock w.ticks)

is_empty-uuid4 : (w : World) (id : String) → Stamps w → (uuid4 w).0 ≡ ok id → is_empty id ≡ false
unfolding uuid4
is_empty-uuid4 w id st h = ground (arith, st.uuids w.drawn)

is_empty_of_validate_run_id :
    (run_id id : String) → validate_run_id run_id ≡ ok id → is_empty id ≡ false
unfolding validate_run_id
is_empty_of_validate_run_id run_id id h = ground arith

is_empty_of_validate_reason :
    (reason r : String) → validate_reason reason ≡ ok r → (r ≡ strip reason) × (is_empty r ≡ false)
unfolding validate_reason
is_empty_of_validate_reason reason r h = ground arith

is_empty-or_text : (s t : String) → is_empty t ≡ false → is_empty (or_text s t) ≡ false
is_empty-or_text String.[] t h = h
is_empty-or_text (String.◌∷◌ c s) t h = refl

is_empty-user : (user : Option String) → is_empty (user_or_unknown user) ≡ false
is_empty-user none = refl
is_empty-user (some u) = is_empty-or_text (strip u) "unknown" refl

is_empty-resolve_actor :
    (actor : Option String) (w : World) (a : String)
    → (resolve_actor actor w).0 ≡ ok a
    → is_empty a ≡ false
unfolding resolve_actor
is_empty-resolve_actor none w a h = ground (arith, is_empty-user (w.env "USER"))
is_empty-resolve_actor (some b) w a h =
    ground (arith, is_empty-or_text (strip b) _ (is_empty-user (w.env "USER")))

Post-write_state :
    (q : FilePath) (s : KillSwitchState) (w : World)
    → Post (write_state q s w) (λ _ w'. w'.entry q ≡ file (document (obj (state_fields s))))
unfolding write_state
Post-write_state q s w = Post-os_error_as _ _ w _ (Post-bind _ _ w _ (λ _ _. Post-write_text q _ _))

module _ (run_id reason : String) (actor : Option String) (root artifacts : FilePath) where
  -- What an operation that wrote `state` leaves in `w`.
  record Written (state : String) (s : KillSwitchState) (w : World) : Type 0 where
    written : w.entry (state_path root (strip run_id)) ≡ file (document (obj (state_fields s)))
    well_formed : IsWellFormed s
    state_is : s.state ≡ state
    run_id_is : s.run_id ≡ strip run_id
    reason_is : s.last_reason ≡ strip reason
    named : is_empty (strip run_id) ≡ false

  Written-of :
      (state id : String) (s : KillSwitchState) (w : World)
      → validate_run_id run_id ≡ ok id
      → s.run_id ≡ id
      → w.entry (state_path root id) ≡ file (document (obj (state_fields s)))
      → IsWellFormed s
      → s.state ≡ state
      → s.last_reason ≡ strip reason
      → Written state s w
  Written-of state id s w named mine wrote well is_state is_reason =
      let e : strip run_id ≡ id = sym (eq_strip_of_validate_run_id run_id id named) in
      record {
        written = rw e wrote;
        well_formed = well;
        state_is = is_state;
        run_id_is = rw e mine;
        reason_is = is_reason;
        named = rw e (is_empty_of_validate_run_id run_id id named);
      }

  -- The world in which the clock is read.
  abbrev at_status : String → World → World
  at_status id w = (get_kill_switch_status id root (resolve_actor actor w).1).1

  Stamps-at_status : (id : String) (w : World) → Stamps w → Stamps (at_status id w)
  Stamps-at_status id w st =
      Stamps-Same ((Spares-get_kill_switch_status {p = []} id root).at _)
        (Stamps-Same ((Spares-resolve_actor {p = []} actor).at w) st)

  Post-activate :
      (w : World)
      → Stamps w
      → Post (activate_kill_switch run_id reason actor root artifacts w) (λ s w'.
        Written state_active s w'
        × (s.active_since_utc ≡ some s.updated_at_utc)
        × (s.cleared_at_utc ≡ none))
  unfolding activate_kill_switch lift
  Post-activate w st = Post-bind _ _ w _ λ id named. Post-bind _ _ w _ λ r given.
      Post-bind _ _ w _ λ a acted. Post-bind _ _ _ _ λ status _. Post-bind _ _ _ _ λ ts now.
        Post-bind _ _ _ _ λ event_id drawn. Post-bind _ _ _ _ λ _ _. Post-bind _ _ _ _ λ _ _.
          Post-then _ _ _ _ _
            (Post-write_state (state_path root id) (activated_state id r a ts event_id) _)
            λ _ w' wrote.
              let (same, full) = is_empty_of_validate_reason reason r given in
              let st' = Stamps-at_status id w st in
              Post-pure _ w' _ (
                Written-of state_active id _ w' named refl wrote
                    (record {
                      schema = refl;
                      known = inl refl;
                      has_run_id = is_empty_of_validate_run_id run_id id named;
                      has_updated = is_empty-utc_now_iso8601 _ ts st' now;
                      has_event = is_empty-uuid4 _ event_id (Stamps-utc_now_iso8601 _ st') drawn;
                      has_reason = full;
                      has_actor = is_empty-resolve_actor actor w a acted;
                    })
                    refl same,
                refl,
                refl,
              )

  -- The status that the operation reads is the one at its start.
  status_at_start :
      (id : String) (w : World) (status : KillSwitchStatus)
      → validate_run_id run_id ≡ ok id
      → (get_kill_switch_status id root (resolve_actor actor w).1).0 ≡ ok status
      → (get_kill_switch_status run_id root w).0 ≡ ok status
  status_at_start id w status named h =
      sym (get_kill_switch_status-strip run_id root w)
      ∙ rw (sym (eq_strip_of_validate_run_id run_id id named))
          (sym (status-Same id root w _ ((Spares-resolve_actor actor).at w)) ∙ h)

  Post-clear :
      (w : World)
      → Stamps w
      → Post (clear_kill_switch run_id reason actor root artifacts w) (λ s w'.
        Written state_cleared s w'
        × (s.cleared_at_utc ≡ some s.updated_at_utc)
        × ((before : KillSwitchStatus) × ((get_kill_switch_status run_id root w).0 ≡ ok before)
            × (s.active_since_utc ≡ before.active_since_utc)))
  unfolding clear_kill_switch lift
  Post-clear w st = Post-bind _ _ w _ λ id named. Post-bind _ _ w _ λ r given.
      Post-bind _ _ w _ λ a acted. Post-bind _ _ _ _ λ status read. Post-bind _ _ _ _ λ ts now.
        Post-bind _ _ _ _ λ event_id drawn. Post-bind _ _ _ _ λ _ _. Post-bind _ _ _ _ λ _ _.
          Post-then _ _ _ _ _
            (Post-write_state (state_path root id)
              (cleared_state id r a ts event_id status.active_since_utc) _)
            λ _ w' wrote.
              let (same, full) = is_empty_of_validate_reason reason r given in
              let st' = Stamps-at_status id w st in
              Post-pure _ w' _ (
                Written-of state_cleared id _ w' named refl wrote
                    (record {
                      schema = refl;
                      known = inr refl;
                      has_run_id = is_empty_of_validate_run_id run_id id named;
                      has_updated = is_empty-utc_now_iso8601 _ ts st' now;
                      has_event = is_empty-uuid4 _ event_id (Stamps-utc_now_iso8601 _ st') drawn;
                      has_reason = full;
                      has_actor = is_empty-resolve_actor actor w a acted;
                    })
                    refl same,
                refl,
                (status, status_at_start id w status named read, refl),
              )

  status_of-Written :
      (state : String) (s : KillSwitchState) (w : World)
      → Written state s w
      → w.unreadable (state_path root (strip run_id)) ≡ false
      → (get_kill_switch_status run_id root w).0 ≡ ok (status_of s)
  status_of-Written state s w h readable =
      status_of_file run_id root s w h.named readable h.written h.well_formed

  -- An activation that returns a state has made it the status of the run: `active`, with the
  -- trimmed reason, active since its own time stamp and not cleared. Time stamps and random
  -- identifiers are not empty, and the state file can be read afterwards.
  pub activate_sets_active :
      (w w' : World) (s : KillSwitchState)
      → Stamps w
      → activate_kill_switch run_id reason actor root artifacts w ≡ (ok s, w')
      → w'.unreadable (state_path root (strip run_id)) ≡ false
      → ((get_kill_switch_status run_id root w').0 ≡ ok (status_of s))
        × (s.state ≡ state_active)
        × (s.run_id ≡ strip run_id)
        × (s.last_reason ≡ strip reason)
        × (s.active_since_utc ≡ some s.updated_at_utc)
        × (s.cleared_at_utc ≡ none)
  activate_sets_active w w' s st returned readable =
      let (h, since, uncleared) = Post-use _ _ (Post-activate w st) returned in
      (status_of-Written _ s w' h readable, h.state_is, h.run_id_is, h.reason_is, since, uncleared)

  -- A clearing that returns a state has made it the status of the run: `cleared` at its own time
  -- stamp, with the trimmed reason, and with the start of the active period that the status had
  -- before. Time stamps and random identifiers are not empty, and the state file can be read
  -- afterwards.
  pub clear_sets_cleared :
      (w w' : World) (s : KillSwitchState)
      → Stamps w
      → clear_kill_switch run_id reason actor root artifacts w ≡ (ok s, w')
      → w'.unreadable (state_path root (strip run_id)) ≡ false
      → ((get_kill_switch_status run_id root w').0 ≡ ok (status_of s))
        × (s.state ≡ state_cleared)
        × (s.run_id ≡ strip run_id)
        × (s.last_reason ≡ strip reason)
        × (s.cleared_at_utc ≡ some s.updated_at_utc)
        × ((before : KillSwitchStatus) × ((get_kill_switch_status run_id root w).0 ≡ ok before)
            × (s.active_since_utc ≡ before.active_since_utc))
  clear_sets_cleared w w' s st returned readable =
      let (h, cleared, before) = Post-use _ _ (Post-clear w st) returned in
      (status_of-Written _ s w' h readable, h.state_is, h.run_id_is, h.reason_is, cleared, before)
