-- ===== src/Reconciliation/Tests.antt =====
-- Reconciliations at concrete data.
use tradingchassis_ops_lab.Base.{
  ◌↔◌, ◌≢◌, String, true, false, none, some, [], ◌∷◌, ◌≡◌, refl, if◌then◌else◌, ◌==◌, strip, leb,
}
use tradingchassis_ops_lab.Base.Json.{cons, null, str, int, pos, arr, nil, obj, Fields, dict, get}
use tradingchassis_ops_lab.Base.Sorting.{count}
use tradingchassis_ops_lab.World.Content.{document, loads}
use tradingchassis_ops_lab.World.Effects.{
  FilePath, Entry, absent, dir, file, World, Result, ok, raised, same_path, arithmetic_error,
  is_dir, is_file, read_json, read_text, write_text, append_text, resolve, datetime_now,
}
use tradingchassis_ops_lab.World.Frame.{Spares}
use tradingchassis_ops_lab.Reconciliation.Standard.{Standard, render_decimal, parse_iso8601_utc}
use tradingchassis_ops_lab.Reconciliation.Checks
use tradingchassis_ops_lab.Reconciliation.Validate
use tradingchassis_ops_lab.Reconciliation.Checks.{
  Check, check_of, fine, warning, unknown, mismatch, done, parse_decimal, parse_optional_decimal,
  check_flat, position_deltas, normalize_position, Position, compare_position, precedence,
}
use tradingchassis_ops_lab.Reconciliation.Freshness.{
  resolve_max_age_seconds, age_seconds, compare_freshness,
}
use tradingchassis_ops_lab.Reconciliation.Rollup.{
  passes, summarize_checks, summarize_from, rollup_status, higher, greatest_from,
}
use tradingchassis_ops_lab.Reconciliation.Operation.{
  result_path, run_reconciliation_check, reconcile, persist, announce, load_json_object, run_checks,
  reconciled_of, Reconciled, result_fields,
}
use tradingchassis_ops_lab.Reconciliation.Verdict.{
  is_severity, some_check, rollup_status-some_check, passes-rollup_status, count_of,
  count_of-summarize_checks,
}
use tradingchassis_ops_lab.Reconciliation.Agreement.{
  compare_position-decides, compare_position-signaling, compare_freshness-severity,
}
use tradingchassis_ops_lab.Reconciliation.Effects.{
  run_reconciliation_check-Spares, run_reconciliation_check-written, IsJust,
}
use tradingchassis_ops_lab.Reconciliation.OrdersAgree.{Agree, compare_open_orders-decides}
use tradingchassis_ops_lab.Reconciliation.Orders.{
  Order, compare_open_orders, canonicalize_open_orders, orders_deltas,
}
use tradingchassis_ops_lab.Reconciliation.Validate.{
  validate_payload, validate_position, validate_orders, validate_freshness,
}
use tradingchassis_ops_lab.World.Effects

-- Texts are their own decimals, `"0"` is zero, and `"sNaN"` has no comparison; every text is the
-- instant of the start of a second.
abbrev std : Standard
std = record {
  parse = λ s. some (record { fixed = s; is_zero = if s == "sNaN" then none else some (s == "0") });
  fromisoformat = λ s. some (record { aware = true; instant = 1000000 });
  repr = λ s. s;
  isoformat_z = λ n. "2024-01-01T00:00:00Z";
}

abbrev position : String → String → Fields
position side qty =
    dict (
      ("symbol", str "BTC")
      ∷ ("side", str side)
      ∷ ("qty", str qty)
      ∷ ("avg_entry_price", null)
      ∷ [])

abbrev long_one : Position
long_one = record { symbol = "BTC"; side = "long"; qty = "1"; avg_entry_price = none }

abbrev long_two : Position
long_two = record long_one { qty = "2" }

compare_position-decides_example :
    (c : Check) × (compare_position std (position "long" "1") (position "long" "2") ≡ ok c)
    × ((c.severity ≡ fine) ↔ (long_one ≡ long_two))
    × ((c.severity ≡ mismatch) ↔ (long_one ≢ long_two))
unfolding normalize_position parse_decimal parse_optional_decimal check_flat render_decimal strip
    Checks.◌>>=◌ get
compare_position-decides_example =
    compare_position-decides std (position "long" "1") (position "long" "2") {p = long_one}
      {q = long_two} refl refl

compare_position-signaling_example :
    compare_position std (position "flat" "sNaN") (position "flat" "0") ≡ raised arithmetic_error
unfolding parse_optional_decimal get
compare_position-signaling_example =
    compare_position-signaling std (position "flat" "sNaN") (position "flat" "0") refl refl refl
      refl

abbrev fresh : Fields
fresh = dict (
    ("orders_ts_utc", str "t")
    ∷ ("position_ts_utc", str "t")
    ∷ ("max_age_seconds", int (pos 5))
    ∷ [])

compare_freshness-severity_example :
    (compare_freshness std none (some fresh) 9000000).severity ≡ warning
unfolding resolve_max_age_seconds parse_iso8601_utc strip age_seconds get
compare_freshness-severity_example =
    compare_freshness-severity std none fresh 9000000 refl refl refl refl refl

abbrev stale : Check
stale = check_of "freshness" warning true ""

abbrev matched : Check
matched = check_of "position" fine true ""

rollup_status-some_check_example :
    let checks = matched ∷ stale ∷ [] in
    rollup_status checks ≡ (
      if some_check mismatch checks
      then mismatch
      else if some_check unknown checks
      then unknown
      else if some_check warning checks
      then warning
      else fine)
rollup_status-some_check_example = rollup_status-some_check matched (stale ∷ [])

passes-rollup_status_example :
    passes (summarize_checks (matched ∷ stale ∷ []))
    ≡ leb (precedence (rollup_status (matched ∷ stale ∷ []))) 1
passes-rollup_status_example = passes-rollup_status matched (stale ∷ [])

count_of-summarize_checks_example :
    count_of warning (summarize_checks (matched ∷ stale ∷ []))
    ≡ count (λ c. is_severity warning c.severity) (matched ∷ stale ∷ [])
count_of-summarize_checks_example = count_of-summarize_checks warning (matched ∷ stale ∷ [])

abbrev runs : FilePath
runs = "runs" ∷ []

run_reconciliation_check-Spares_example :
    Spares
      ("metadata.json" ∷ "r1" ∷ runs)
      (run_reconciliation_check std "r1" ("e.json" ∷ []) ("o.json" ∷ []) runs none)
run_reconciliation_check-Spares_example =
    run_reconciliation_check-Spares std "r1" ("e.json" ∷ []) ("o.json" ∷ []) runs none refl refl

abbrev payload : Fields
payload = dict (
    ("schema_version", str "v1")
    ∷ ("run_id", str "r1")
    ∷ ("as_of_utc", str "t")
    ∷ ("position", obj (position "long" "1"))
    ∷ ("open_orders", arr nil)
    ∷ [])

abbrev entries : FilePath → Entry
entries p =
    if same_path p ("r1" ∷ runs)
    then dir
    else if same_path p ("p.json" ∷ [])
    then file (document (obj payload))
    else absent

abbrev start : World
start = record {
  entry = entries;
  unreadable = λ _. false;
  unwritable = λ _. false;
  left = λ _. none;
  env = λ _. none;
  resolved = λ p. "/srv";
  message = λ e. "failed";
  clock = λ _. "2024-01-01T00:00:00Z";
  micros = λ _. 63839664000000000;
  ticks = 0;
  uuids = λ _. "id";
  drawn = 0;
}

abbrev result : Reconciled
result = record {
  run_id = "r1";
  ts_utc = "2024-01-01T00:00:00Z";
  status = unknown;
  expected_path = "/srv";
  observed_path = "/srv";
  checks =
      check_of "position" fine true "position matched"
      ∷ check_of "open_orders" fine true "open orders matched"
      ∷ check_of "freshness" unknown false
          "freshness.max_age_seconds missing in expected and observed payloads"
      ∷ [];
  summary = record { fine_count = 2; warning_count = 0; mismatch_count = 0; unknown_count = 1 };
  pass = false;
}

abbrev run : Result Reconciled × World
run = run_reconciliation_check std "r1" ("p.json" ∷ []) ("p.json" ∷ []) runs none start

returns : run ≡ (ok result, run.1)
unfolding run_reconciliation_check reconcile persist announce load_json_object run_checks
    reconciled_of Effects.◌>>=◌ is_dir is_file read_json read_text loads write_text append_text
    resolve datetime_now validate_payload validate_position validate_orders validate_freshness
    Validate.◌>>=◌ parse_iso8601_utc strip get compare_position compare_open_orders
    compare_freshness normalize_position parse_decimal parse_optional_decimal check_flat
    position_deltas canonicalize_open_orders orders_deltas Checks.◌>>=◌ render_decimal
    resolve_max_age_seconds summarize_checks summarize_from rollup_status greatest_from higher
    passes
returns = refl

run_reconciliation_check-written_example :
    (run.1.entry (result_path ("r1" ∷ runs)) ≡ file (document (obj (result_fields result))))
    × IsJust result
unfolding strip
run_reconciliation_check-written_example =
    run_reconciliation_check-written std "r1" ("p.json" ∷ []) ("p.json" ∷ []) runs none start
      returns

abbrev order : String → Fields
order qty = dict (
    ("order_id", str "o1")
    ∷ ("symbol", str "BTC")
    ∷ ("side", str "buy")
    ∷ ("type", str "market")
    ∷ ("qty", str qty)
    ∷ ("price", null)
    ∷ [])

abbrev canonical : Order
canonical = record {
  symbol = "BTC";
  side = "buy";
  order_type = "market";
  qty = "1";
  price = none;
  time_in_force = none;
  status = none;
}

compare_open_orders-decides_example :
    (k : Check) × (compare_open_orders std
        (cons (obj (order "1")) nil)
        (cons (obj (order "1.0")) nil)
      ≡ ok k)
    × ((k.severity ≡ fine) ↔ Agree (("o1", canonical) ∷ []) (("o1", canonical) ∷ []))
    × ((k.severity ≡ mismatch) ↔ (¬ Agree (("o1", canonical) ∷ []) (("o1", canonical) ∷ [])))
unfolding canonicalize_open_orders parse_decimal parse_optional_decimal render_decimal strip get
    Checks.◌>>=◌
compare_open_orders-decides_example =
    compare_open_orders-decides std (cons (obj (order "1")) nil) (cons (obj (order "1.0")) nil)
      {c = ("o1", canonical) ∷ []} {d = ("o1", canonical) ∷ []} refl refl
