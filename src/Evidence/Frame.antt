-- ===== src/Evidence/Frame.antt =====
-- What a comparison leaves alone.
use tradingchassis_ops_lab.Base.{String, Bool, Option, none, some, List, [], ◌∷◌, ◌++◌}
use tradingchassis_ops_lab.Base.Sorting.{sorted}
use tradingchassis_ops_lab.World.Effects.{FilePath}
use tradingchassis_ops_lab.World.Frame.{
  Spares, Spares-bind, Spares-pure, Spares-lift, Spares-if, Spares-is_file, Spares-read_text,
  Spares-utc_now_iso8601,
}
use tradingchassis_ops_lab.Evidence.Load.{
  Python, core_artifact_names, optional_artifact_names, load_json_required, load_json_optional,
  load_journal_events, presence_of, build_artifact_presence,
}
use tradingchassis_ops_lab.Evidence.Payloads.{created_at}
use tradingchassis_ops_lab.Evidence.Compare.{compare_present, compare_by, compare_backtest_paper}

-- A comparison writes nothing.
module _ {p : FilePath} where
  Spares-load_json_required : (q : FilePath) → Spares p (load_json_required q)
  unfolding load_json_required
  Spares-load_json_required q = Spares-bind _ _ (Spares-read_text q) (λ _. Spares-lift _)

  Spares-load_json_optional : (q : FilePath) → Spares p (load_json_optional q)
  unfolding load_json_optional
  Spares-load_json_optional q = Spares-bind _ _ (Spares-is_file q) λ regular.
      Spares-if regular _ _ (Spares-bind _ _ (Spares-load_json_required q) (λ _. Spares-pure _))
        (Spares-pure _)

  Spares-load_journal_events : (q : FilePath) → Spares p (load_journal_events q)
  unfolding load_journal_events
  Spares-load_journal_events q = Spares-bind _ _ (Spares-read_text q) (λ _. Spares-lift _)

  Spares-created_at : (o : Option String) → Spares p (created_at o)
  unfolding created_at
  Spares-created_at none = Spares-utc_now_iso8601
  Spares-created_at (some ts) = Spares-if _ _ _ Spares-utc_now_iso8601 (Spares-pure ts)

  Spares-presence_of : (d : FilePath) (names : List String) → Spares p (presence_of d names)
  unfolding presence_of
  Spares-presence_of d [] = Spares-pure _
  Spares-presence_of d (n ∷ ns) =
      Spares-bind _ _ (Spares-is_file _)
        λ _. Spares-bind _ _ (Spares-presence_of d ns) λ _. Spares-pure _

  Spares-build_artifact_presence : (d : FilePath) → Spares p (build_artifact_presence d)
  unfolding build_artifact_presence
  Spares-build_artifact_presence d =
      Spares-presence_of d (sorted (core_artifact_names ++ optional_artifact_names))

  Spares-compare_present :
      (py : Python) (bd pd : FilePath) (b q : List (String × Bool)) (ts : Option String)
      → Spares p (compare_present py bd pd b q ts)
  unfolding compare_present
  Spares-compare_present py bd pd b q ts = Spares-bind _ _ (Spares-load_json_required _) λ _.
      Spares-bind _ _ (Spares-load_json_required _) λ _.
        Spares-bind _ _ (Spares-load_json_required _) λ _.
          Spares-bind _ _ (Spares-load_json_required _) λ _.
            Spares-bind _ _ (Spares-load_journal_events _) λ _.
              Spares-bind _ _ (Spares-load_journal_events _) λ _.
                Spares-bind _ _ (Spares-load_json_optional _) λ _.
                  Spares-bind _ _ (Spares-load_json_optional _) λ _.
                    Spares-bind _ _ (Spares-load_json_optional _) λ _.
                      Spares-bind _ _ (Spares-load_json_optional _) λ _.
                        Spares-bind _ _ (Spares-load_json_optional _) λ _.
                          Spares-bind _ _ (Spares-load_json_optional _)
                            λ _. Spares-bind _ _ (Spares-created_at ts) λ _. Spares-pure _

  -- A comparison changes no path, whether it returns or raises.
  pub compare_backtest_paper-Spares :
      (py : Python) (bd pd : FilePath) (ts : Option String)
      → Spares p (compare_backtest_paper py bd pd ts)
  unfolding compare_backtest_paper compare_by
  compare_backtest_paper-Spares py bd pd ts =
      Spares-bind _ _ (Spares-build_artifact_presence bd) λ b.
        Spares-bind _ _ (Spares-build_artifact_presence pd) λ q.
          Spares-if _ _ _ (Spares-compare_present py bd pd b q ts)
            (Spares-bind _ _ (Spares-created_at ts) (λ _. Spares-pure _))
