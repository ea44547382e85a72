-- ===== src/Evidence/Render.antt =====
-- `render_backtest_vs_paper_evidence_report` of evidence/render.py.
use tradingchassis_ops_lab.Base.{String, ◌<>◌, none, some, List, [], ◌∷◌, ◌++◌, map, if◌then◌else◌}
use tradingchassis_ops_lab.Base.Sorting.{sorted}
use tradingchassis_ops_lab.Base.Json.{Json, arr, nil, obj, Fields, end, get}
use tradingchassis_ops_lab.World.Effects.{Result, ok, raised, Action, pure, lift, ◌>>=◌}
use tradingchassis_ops_lab.Evidence.Load.{Python, distinct}
use tradingchassis_ops_lab.Evidence.Compared.{got}
use tradingchassis_ops_lab.Evidence.Payloads.{joined}
use tradingchassis_ops_lab.Evidence.Cells.{
  or_else, render_value, escape_table_cell, keys, members, as_dict, truthy,
}

-- `d.get(k, {})` and `d.get(k, [])`
abbrev get_or : Json → Fields → String → Json
get_or v fs k = elim (get fs k) [ none ↦ v | some u ↦ u ]

abbrev separated : String → List String → String
separated sep [] = ""
separated sep (s ∷ []) = s
separated sep (s ∷ t ∷ ts) = s <> sep <> separated sep (t ∷ ts)

abbrev row : List String → String
row cells = "| " <> separated " | " cells <> " |"

abbrev compared_row : Python → Fields → String
compared_row py f = row (
    map (λ k. escape_table_cell py (got f k))
      ("area" ∷ "backtest" ∷ "paper" ∷ "comparable" ∷ "match" ∷ "note" ∷ []))

abbrev consed : String → Result (List String) → Result (List String)
consed s (ok ss) = ok (s ∷ ss)
consed s (raised e) = raised e

abbrev row_then : Python → Result Fields → Result (List String) → Result (List String)
row_then py (ok f) rest = consed (compared_row py f) rest
row_then py (raised e) rest = raised e

unfoldable pub compared_rows : Python → List Json → Result (List String)
unfolding escape_table_cell
compared_rows py [] = ok []
compared_rows py (j ∷ js) = row_then py (as_dict j) (compared_rows py js)

abbrev pub artifact_row : Python → Fields → Fields → String → String
artifact_row py b p name =
    row (name ∷ escape_table_cell py (got b name) ∷ escape_table_cell py (got p name) ∷ [])

abbrev rows_or : String → List String → List String
rows_or s [] = s ∷ []
rows_or s (r ∷ rs) = r ∷ rs

-- The lines of a list, or the line of an empty one.
unfoldable pub bulleted : Python → String → String → Json → Result String
unfolding render_value
bulleted py before after v =
    if truthy v
    then elim (members v) [
      | raised e ↦ raised e
      | ok js ↦ ok (separated "\n" (map (λ j. "- " <> before <> render_value py j <> after) js))
    ]
    else ok "- none"

abbrev value_at : Python → Fields → String → String
value_at py fs k = render_value py (got fs k)

-- ` k=value` for each key
abbrev mode_line : Python → Fields → List String → String
mode_line py fs ks = separated "," (map (λ k. " " <> k <> "=" <> value_at py fs k) ks)

abbrev backtest_keys : List String
backtest_keys =
    "status" ∷ "lifecycle" ∷ "is_placeholder" ∷ "engine_executed" ∷ "scenario_name"
    ∷ "scenario_version" ∷ "bars_seen" ∷ "orders_submitted" ∷ "fills_count"
    ∷ "deterministic_action_triggered" ∷ []

abbrev paper_keys : List String
paper_keys =
    "status" ∷ "lifecycle" ∷ "is_placeholder" ∷ "engine_executed" ∷ "paper_lifecycle"
    ∷ "heartbeat_count" ∷ "connectivity" ∷ "safety_lifecycle_outcome" ∷ []

-- The parts of the report.
pub record Sections : Type 0 where
  pub evidence : Fields
  pub modes : String
  pub compared_lines : List String
  pub artifact_lines : List String
  pub backtest_event_total : String
  pub paper_event_total : String
  pub shared_events : String
  pub safety : Fields
  pub connectivity : Fields
  pub gaps_lines : String
  pub non_goals_lines : String
  pub notes_lines : String

unfoldable pub report_text : Python → Sections → String
unfolding render_value
report_text py s =
    "# Backtest vs Paper Operational Evidence\n\n- comparison_status: `"
    <> value_at py s.evidence "comparison_status"
    <> "`\n- backtest_run_id: `"
    <> value_at py s.evidence "backtest_run_id"
    <> "`\n- paper_run_id: `"
    <> value_at py s.evidence "paper_run_id"
    <> "`\n\n## Summary\n\nThis is operational evidence, not strategy performance.\n\n"
    <> "## Mode summary\n\n"
    <> s.modes
    <> "## Compared fields\n\n"
    <> separated "\n" s.compared_lines
    <> "\n\n## Artifact presence\n\n"
    <> separated "\n" s.artifact_lines
    <> "\n\n## Journal summary\n\n- backtest event_total: "
    <> s.backtest_event_total
    <> "\n- paper event_total: "
    <> s.paper_event_total
    <> "\n- shared_events: "
    <> s.shared_events
    <> "\n\n## Safety and connectivity\n\n- paper kill switch state: "
    <> value_at py s.safety "paper_kill_switch_state"
    <> "\n- paper lifecycle outcome: "
    <> value_at py s.safety "paper_lifecycle_outcome"
    <> "\n- backtest safety evaluated: "
    <> value_at py s.safety "backtest_safety_evaluated"
    <> "\n- backtest readiness state: "
    <> value_at py s.connectivity "backtest_readiness"
    <> "\n- paper readiness state: "
    <> value_at py s.connectivity "paper_readiness"
    <> "\n- backtest probe state: "
    <> value_at py s.connectivity "backtest_probe"
    <> "\n- paper probe state: "
    <> value_at py s.connectivity "paper_probe"
    <> "\n- backtest reconciliation status: "
    <> value_at py s.connectivity "backtest_reconciliation"
    <> "\n- paper reconciliation status: "
    <> value_at py s.connectivity "paper_reconciliation"
    <> "\n\n## Known gaps\n\n"
    <> s.gaps_lines
    <> "\n\n## Non-goals\n\n"
    <> s.non_goals_lines
    <> "\n\n## Notes\n\n"
    <> s.notes_lines
    <> "\n\n## Disclaimer\n\n- no PnL reporting\n- no Sharpe/returns reporting\n"
    <> "- no live/testnet/exchange evidence\n"
    <> "- paper mode is a bounded synthetic lifecycle skeleton\n"
    <> "- no real orders, fills, balances, positions, or account state\n"

unfoldable pub render_backtest_vs_paper_evidence_report : Python → Fields → Action String
unfolding render_value compared_rows escape_table_cell bulleted report_text sorted
render_backtest_vs_paper_evidence_report py evidence = do
  mode_summary ← lift (as_dict (get_or (obj end) evidence "mode_summary"))
  rows ← do
    compared_fields ← lift (members (get_or (arr nil) evidence "compared_fields"))
    lift (compared_rows py compared_fields)
  artifact_presence ← lift (as_dict (get_or (obj end) evidence "artifact_presence"))
  b ← lift (as_dict (get_or (obj end) artifact_presence "backtest"))
  p ← lift (as_dict (get_or (obj end) artifact_presence "paper"))
  journal_summary ← lift (as_dict (get_or (obj end) evidence "journal_summary"))
  shared_events ← lift (members (get_or (arr nil) journal_summary "shared_events"))
  notes_lines ← lift (bulleted py "" "" (get_or (arr nil) evidence "notes"))
  gaps_lines ← lift (bulleted py "`" "`" (get_or (arr nil) evidence "known_gaps"))
  non_goals_lines ← lift (bulleted py "`" "`" (get_or (arr nil) evidence "non_goals"))
  backtest_journal ← lift (as_dict (get_or (obj end) journal_summary "backtest"))
  paper_journal ← lift (as_dict (get_or (obj end) journal_summary "paper"))
  safety ← lift (as_dict (get_or (obj end) evidence "safety_summary"))
  connectivity ← lift (as_dict (get_or (obj end) evidence "connectivity_summary"))
  backtest ← lift (as_dict (get_or (obj end) mode_summary "backtest"))
  paper ← lift (as_dict (get_or (obj end) mode_summary "paper"))
  pure (
      report_text py (record {
        evidence = evidence;
        modes =
            "- backtest:"
            <> mode_line py backtest backtest_keys
            <> "\n- paper:"
            <> mode_line py paper paper_keys
            <> "\n\n";
        compared_lines =
            "| Area | Backtest | Paper | Classification | Match | Note |"
            ∷ "|---|---|---|---|---|---|"
            ∷ rows_or "| - | - | - | - | - | - |" rows;
        artifact_lines =
            "| Artifact | Backtest | Paper |"
            ∷ "|---|---|---|"
            ∷ rows_or "| - | - | - |"
                (map (artifact_row py b p) (sorted (distinct (keys b ++ keys p))));
        backtest_event_total = value_at py backtest_journal "event_total";
        paper_event_total = value_at py paper_journal "event_total";
        shared_events = or_else (joined (map (render_value py) shared_events)) "-";
        safety = safety;
        connectivity = connectivity;
        gaps_lines = gaps_lines;
        non_goals_lines = non_goals_lines;
        notes_lines = notes_lines;
      }))
