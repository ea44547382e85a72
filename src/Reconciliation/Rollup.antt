-- ===== src/Reconciliation/Rollup.antt =====
-- `_summarize_checks` and `_rollup_status`.
use tradingchassis_ops_lab.Base.{ℕ, ◌+◌, Bool, ◌&&◌, List, [], ◌∷◌, ltb, eqb, if◌then◌else◌}
use tradingchassis_ops_lab.Reconciliation.Checks.{
  Severity, fine, warning, unknown, mismatch, precedence, Check,
}

pub record Summary : Type 0 where
  pub fine_count : ℕ
  pub warning_count : ℕ
  pub mismatch_count : ℕ
  pub unknown_count : ℕ

abbrev pub no_checks : Summary
no_checks = record { fine_count = 0; warning_count = 0; mismatch_count = 0; unknown_count = 0 }

-- `summary[severity] += 1`
abbrev pub counted : Severity → Summary → Summary
counted fine s = record s { fine_count = s.fine_count + 1 }
counted warning s = record s { warning_count = s.warning_count + 1 }
counted unknown s = record s { unknown_count = s.unknown_count + 1 }
counted mismatch s = record s { mismatch_count = s.mismatch_count + 1 }

unfoldable pub summarize_from : Summary → List Check → Summary
summarize_from s [] = s
summarize_from s (c ∷ cs) = summarize_from (counted c.severity s) cs

unfoldable pub summarize_checks : List Check → Summary
unfolding summarize_from
summarize_checks cs = summarize_from no_checks cs

-- `max(severities, key=…)`, which keeps the first of the greatest.
unfoldable pub higher : Severity → Severity → Severity
higher s t = if ltb (precedence s) (precedence t) then t else s

unfoldable pub greatest_from : Severity → List Check → Severity
greatest_from s [] = s
greatest_from s (c ∷ cs) = greatest_from (higher s c.severity) cs

unfoldable pub rollup_status : List Check → Severity
unfolding higher greatest_from
rollup_status [] = unknown
rollup_status (c ∷ cs) = greatest_from c.severity cs

-- `summary["mismatch"] == 0 and summary["unknown"] == 0`
unfoldable pub passes : Summary → Bool
passes s = eqb s.mismatch_count 0 && eqb s.unknown_count 0
