-- ===== src/Runs/PaperRuns.antt =====
-- What a paper lifecycle leaves behind, by the state of the kill switch.
use mathlib.Core.List.{append-nil, append_assoc}
use tradingchassis_ops_lab.Base.{ℕ, zero, suc, ◌+◌, String, List, [], ◌∷◌, ◌++◌, ◌≡◌, refl, sym}
use tradingchassis_ops_lab.Base.Json.{str, obj, Fields, end, get, get-put}
use tradingchassis_ops_lab.World.Effects.{World}
use tradingchassis_ops_lab.World.Returns.{Returns, Returns-bind, Returns-pure, Returns-handle}
use tradingchassis_ops_lab.Runs.Opened.{text_in, Open}
use tradingchassis_ops_lab.Runs.Steps.{
  Returns-utc_now, Returns-write_metadata, Returns-write_metrics, Returns-write_report,
  Returns-log_event,
}
use tradingchassis_ops_lab.Runs.Paper.{
  ended, Started, block_paper, complete_paper, write_blocked_metrics, write_placeholder_metrics,
  write_report, blocked_fields, started_fields, heartbeat_fields, completed_fields,
  append_synthetic_heartbeat_events,
}

-- The names of `n` heartbeats.
abbrev pub heartbeats : ℕ → List String
heartbeats zero = []
heartbeats (suc n) = "paper_heartbeat" ∷ heartbeats n

-- The status of the metadata at the end.
status-ended :
    (status at : String) (execution metadata : Fields)
    → text_in (ended status at execution metadata) "status" ≡ status
status-ended status at execution metadata =
    rw (get-put "paper_execution" "status" (obj execution) _, text_in)
      (rw (get-put "completed_at_utc" "status" (str at) _)
        (rw (get-put "status" "status" (str status) metadata) refl))

module _ (st : Started) where
  abbrev IsOpen : List String → String → World → Type 0
  IsOpen = Open st.session.artifacts_dir

  -- A blocked run: its last two events are the block and the completion.
  pub Returns-block_paper :
      (state : String) {es : List String} {status : String} (w : World)
      → IsOpen es status w
      → Returns (block_paper st state w) (λ o w'.
        (o.status ≡ "safety_blocked")
        × IsOpen
            ((es ++ ("paper_safety_blocked" ∷ [])) ++ ("run_completed" ∷ []))
            "safety_blocked"
            w')
  unfolding block_paper write_blocked_metrics write_report get
  Returns-block_paper state w o = Returns-bind _ _ w _ _ (Returns-utc_now _ w o) λ at w1 o1.
      Returns-bind _ _ w1 _ _ (Returns-write_metadata _ w1 o1 _ (status-ended _ at _ st.metadata))
        λ _ w2 o2.
          Returns-bind _ _ w2 _ _ (Returns-log_event st.session _ _ blocked_fields w2 refl o2)
            λ _ w3 o3.
              Returns-bind _ _ w3 _ _ (Returns-log_event st.session _ _ end w3 refl o3) λ _ w4 o4.
                Returns-bind _ _ w4 _ _ (Returns-write_metrics _ w4 o4 _) λ _ w5 o5.
                  Returns-bind _ _ w5 _ _ (Returns-write_report _ w5 o5 _)
                    λ _ w6 o6. Returns-pure _ w6 _ (refl, o6)

  -- Heartbeats are logged one after the other.
  Returns-heartbeats :
      (n index : ℕ) {es : List String} {status : String} (w : World)
      → IsOpen es status w
      → Returns
          (append_synthetic_heartbeat_events st.session index n w)
          (λ _ w'. IsOpen (es ++ heartbeats n) status w')
  unfolding append_synthetic_heartbeat_events get
  Returns-heartbeats zero index {es} w o = Returns-pure _ w _ (rw (append-nil es) o)
  Returns-heartbeats (suc n) index {es} w o =
      Returns-bind _ _ w _ _ (Returns-log_event st.session _ _ (heartbeat_fields index) w refl o)
        λ _ w1 o1.
          rw (sym (append_assoc es ("paper_heartbeat" ∷ []) (heartbeats n)))
            (Returns-heartbeats n (index + 1) w1 o1)

  pub Returns-complete_paper :
      (state : String) {es : List String} {status : String} (w : World)
      → IsOpen es status w
      → Returns (complete_paper st state w) (λ o w'.
        (o.status ≡ "completed")
        × IsOpen
            ((((es ++ ("paper_started" ∷ [])) ++ heartbeats 3) ++ ("paper_completed" ∷ []))
              ++ ("run_completed" ∷ []))
            "completed"
            w')
  unfolding complete_paper write_placeholder_metrics write_report get
  Returns-complete_paper state w o =
      Returns-bind _ _ w _ _ (Returns-log_event st.session _ _ started_fields w refl o) λ _ w1 o1.
        Returns-bind _ _ w1 _ _ (Returns-handle _ _ w1 _ (Returns-heartbeats 3 1 w1 o1)) λ _ w2 o2.
          Returns-bind _ _ w2 _ _ (Returns-log_event st.session _ _ completed_fields w2 refl o2)
            λ _ w3 o3. Returns-bind _ _ w3 _ _ (Returns-write_metrics _ w3 o3 _) λ _ w4 o4.
              Returns-bind _ _ w4 _ _ (Returns-write_report _ w4 o4 _) λ _ w5 o5.
                Returns-bind _ _ w5 _ _ (Returns-utc_now _ w5 o5) λ at w6 o6.
                  Returns-bind _ _ w6 _ _
                    (Returns-write_metadata _ w6 o6 _ (status-ended _ at _ st.metadata))
                    λ _ w7 o7.
                      Returns-bind _ _ w7 _ _ (Returns-log_event st.session _ _ end w7 refl o7)
                        λ _ w8 o8. Returns-pure _ w8 _ (refl, o8)
