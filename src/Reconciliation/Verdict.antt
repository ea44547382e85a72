-- ===== src/Reconciliation/Verdict.antt =====
-- The status, the summary and the verdict of a list of checks agree.
use tradingchassis_ops_lab.Base.{
  ℕ, ◌+◌, Bool, true, false, ◌||◌, if◌then◌else◌, List, [], ◌∷◌, ◌≡◌, refl, ◌∙◌, leb, arith,
}
use tradingchassis_ops_lab.Base.Sorting.{count, one_if}
use tradingchassis_ops_lab.Reconciliation.Checks.{
  Severity, fine, warning, unknown, mismatch, precedence, Check,
}
use tradingchassis_ops_lab.Reconciliation.Rollup.{
  Summary, no_checks, counted, summarize_from, summarize_checks, higher, greatest_from,
  rollup_status, passes,
}

abbrev pub is_severity : Severity → Severity → Bool
is_severity fine fine = true
is_severity warning warning = true
is_severity unknown unknown = true
is_severity mismatch mismatch = true
is_severity _ _ = false

-- Some check has the severity.
abbrev pub some_check : Severity → List Check → Bool
some_check s [] = false
some_check s (c ∷ cs) = is_severity s c.severity || some_check s cs

-- The status by which of the severities there are.
abbrev pub status_if : Bool → Bool → Bool → Severity
status_if mismatches unknowns warnings =
    if mismatches
    then mismatch
    else if unknowns
    then unknown
    else if warnings
    then warning
    else fine

higher-status :
    (s t : Severity) (m u v : Bool)
    → status_if
        (is_severity mismatch (higher s t) || m)
        (is_severity unknown (higher s t) || u)
        (is_severity warning (higher s t) || v)
      ≡ status_if
          (is_severity mismatch s || (is_severity mismatch t || m))
          (is_severity unknown s || (is_severity unknown t || u))
          (is_severity warning s || (is_severity warning t || v))
unfolding higher
higher-status fine fine m u v = refl
higher-status fine warning m u v = refl
higher-status fine unknown m u v = refl
higher-status fine mismatch m u v = refl
higher-status warning fine m u v = refl
higher-status warning warning m u v = refl
higher-status warning unknown m u v = refl
higher-status warning mismatch m u v = refl
higher-status unknown fine m u v = refl
higher-status unknown warning m u v = refl
higher-status unknown unknown m u v = refl
higher-status unknown mismatch m u v = refl
higher-status mismatch fine m u v = refl
higher-status mismatch warning m u v = refl
higher-status mismatch unknown m u v = refl
higher-status mismatch mismatch m u v = refl

alone-status :
    (s : Severity)
    → s
      ≡ status_if
          (is_severity mismatch s || false)
          (is_severity unknown s || false)
          (is_severity warning s || false)
alone-status fine = refl
alone-status warning = refl
alone-status unknown = refl
alone-status mismatch = refl

greatest_from-status :
    (s : Severity) (cs : List Check)
    → greatest_from s cs
      ≡ status_if
          (is_severity mismatch s || some_check mismatch cs)
          (is_severity unknown s || some_check unknown cs)
          (is_severity warning s || some_check warning cs)
unfolding greatest_from
greatest_from-status s [] = alone-status s
greatest_from-status s (c ∷ cs) =
    greatest_from-status (higher s c.severity) cs
    ∙ higher-status s c.severity (some_check mismatch cs) (some_check unknown cs)
        (some_check warning cs)

-- The status of a list of checks with something in it is `mismatch` if some check is a mismatch, if
-- none is, `unknown` if some check is unknown, and if none is that, `warning` if some check is a
-- warning; otherwise it is `ok`.
pub rollup_status-some_check :
    (c : Check) (cs : List Check)
    → let checks = c ∷ cs in
      rollup_status checks ≡ (
        if some_check mismatch checks
        then mismatch
        else if some_check unknown checks
        then unknown
        else if some_check warning checks
        then warning
        else fine)
unfolding rollup_status
rollup_status-some_check c cs = greatest_from-status c.severity cs

passes-counted :
    (s g : Severity) (t : Summary)
    → passes t ≡ leb (precedence g) 1
    → passes (counted s t) ≡ leb (precedence (higher g s)) 1
unfolding passes higher
passes-counted fine fine t h = h
passes-counted fine warning t h = h
passes-counted fine unknown t h = h
passes-counted fine mismatch t h = h
passes-counted warning fine t h = h
passes-counted warning warning t h = h
passes-counted warning unknown t h = h
passes-counted warning mismatch t h = h
passes-counted unknown fine t h = ground arith
passes-counted unknown warning t h = ground arith
passes-counted unknown unknown t h = ground arith
passes-counted unknown mismatch t h = ground arith
passes-counted mismatch fine t h = ground arith
passes-counted mismatch warning t h = ground arith
passes-counted mismatch unknown t h = ground arith
passes-counted mismatch mismatch t h = ground arith

passes-summarize_from :
    (g : Severity) (t : Summary) (cs : List Check)
    → passes t ≡ leb (precedence g) 1
    → passes (summarize_from t cs) ≡ leb (precedence (greatest_from g cs)) 1
unfolding summarize_from greatest_from
passes-summarize_from g t [] h = h
passes-summarize_from g t (c ∷ cs) h =
    passes-summarize_from (higher g c.severity) (counted c.severity t) cs
      (passes-counted c.severity g t h)

first_passes : (s : Severity) → passes (counted s no_checks) ≡ leb (precedence s) 1
unfolding passes
first_passes fine = refl
first_passes warning = refl
first_passes unknown = refl
first_passes mismatch = refl

-- Checks pass exactly when their status is `ok` or `warning`.
pub passes-rollup_status :
    (c : Check) (cs : List Check)
    → passes (summarize_checks (c ∷ cs)) ≡ leb (precedence (rollup_status (c ∷ cs))) 1
unfolding summarize_checks summarize_from rollup_status
passes-rollup_status c cs =
    passes-summarize_from c.severity (counted c.severity no_checks) cs (first_passes c.severity)

abbrev pub count_of : Severity → Summary → ℕ
count_of fine s = s.fine_count
count_of warning s = s.warning_count
count_of unknown s = s.unknown_count
count_of mismatch s = s.mismatch_count

count_of-counted :
    (s t : Severity) (r : Summary)
    → count_of s (counted t r) ≡ count_of s r + one_if (is_severity s t)
count_of-counted s fine r = ground arith
count_of-counted s warning r = ground arith
count_of-counted s unknown r = ground arith
count_of-counted s mismatch r = ground arith

count_of-summarize_from :
    (s : Severity) (r : Summary) (cs : List Check)
    → count_of s (summarize_from r cs) ≡ count_of s r + count (λ c. is_severity s c.severity) cs
unfolding summarize_from
count_of-summarize_from s r [] = omega arith
count_of-summarize_from s r (c ∷ cs) =
    omega
      (arith, count_of-summarize_from s (counted c.severity r) cs, count_of-counted s c.severity r)

none-counted : (s : Severity) → count_of s no_checks ≡ 0
none-counted s = ground arith

-- The summary of a list of checks has, at each severity, the number of checks of that severity.
pub count_of-summarize_checks :
    (s : Severity) (cs : List Check)
    → count_of s (summarize_checks cs) ≡ count (λ c. is_severity s c.severity) cs
unfolding summarize_checks
count_of-summarize_checks s cs =
    omega (arith, count_of-summarize_from s no_checks cs, none-counted s)
