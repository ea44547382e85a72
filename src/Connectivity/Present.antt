-- ===== src/Connectivity/Present.antt =====
-- Which names of a specification are present, and what the payload says of it.
use tradingchassis_ops_lab.Base.{
  ℕ, ◌+◌, ◌≤◌, String, Bool, true, false, not, Option, some, List, [], ◌∷◌, ◌++◌, length, contains,
  ◌≡◌, refl, sym, ◌∙◌, ap, ◌↔◌, if◌then◌else◌, eqb, arith, eq_iff, Bool-cases, inl, inr,
}
use tradingchassis_ops_lab.Base.Sorting.{sorted, count, count-sorted}
use tradingchassis_ops_lab.Base.Counting.{none_counted, all_false}
use tradingchassis_ops_lab.World.Effects.{World, ◌>>=◌, pure}
use tradingchassis_ops_lab.Runs.Spec.{RunSpec, ConnectivityReadinessSpec}
use tradingchassis_ops_lab.Connectivity.Readiness.{
  Environment, is_present_env, select, Readiness, checked, readiness_of,
  evaluate_connectivity_readiness, observed_env, effective_time,
}

count-select :
    (f g : String → Bool) (xs : List String)
    → count f (select g xs) + count f (select (λ x. not (g x)) xs) ≡ count f xs
count-select f g [] = refl
count-select f g (x ∷ xs) = elim (Bool-cases (g x)) [
  | inl h ↦ rw h (omega (arith, count-select f g xs))
  | inr h ↦ rw h (omega (arith, count-select f g xs))
]

length-select : (f : String → Bool) (xs : List String) → length (select f xs) ≡ count f xs
length-select f [] = refl
length-select f (x ∷ xs) = elim (Bool-cases (f x)) [
  | inl h ↦ rw h (omega (arith, length-select f xs))
  | inr h ↦ rw h (omega (arith, length-select f xs))
]

count-append :
    (f : String → Bool) (xs ys : List String) → count f (xs ++ ys) ≡ count f xs + count f ys
count-append f [] ys = omega arith
count-append f (x ∷ xs) ys = omega (arith, count-append f xs ys)

count-le-length : (f : String → Bool) (xs : List String) → count f xs ≤ length xs
count-le-length f [] = omega arith
count-le-length f (x ∷ xs) = ground (arith, count-le-length f xs)

length-count : (xs : List String) → length xs ≡ count (λ _. true) xs
length-count [] = refl
length-count (x ∷ xs) = omega (arith, length-count xs)

length-sorted : (xs : List String) → length (sorted xs) ≡ length xs
length-sorted xs = length-count (sorted xs) ∙ count-sorted (λ _. true) xs ∙ sym (length-count xs)

true_of_not : (b : Bool) → not b ≡ false → b ≡ true
true_of_not true h = refl
true_of_not false h = cc

zero_of_configured :
    (n : ℕ)
    → ◌≡◌ {A = String} (if eqb n 0 then "configured" else "missing_credentials") "configured"
    → n ≡ 0
zero_of_configured n h = ground (arith, eq_iff "missing_credentials" "configured")

module _ (present : String → Bool) (spec : RunSpec) (readiness : ConnectivityReadinessSpec)
    (ts : String) (asked : readiness.enabled ≡ true) where
  abbrev payload : Readiness
  payload = readiness_of present spec (some readiness) ts

  abbrev required : List String
  required = readiness.credential_placeholders.required_env

  abbrev absent_name : String → Bool
  absent_name name = not (present name)

  payload-missing_required_count : payload.missing_required_count ≡ count absent_name required
  unfolding checked
  payload-missing_required_count =
      rw asked (length-select absent_name (sorted required) ∙ count-sorted absent_name required)

  payload-state :
      payload.state
      ≡ (if eqb (count absent_name required) 0 then "configured" else "missing_credentials")
  unfolding checked
  payload-state = rw asked (
      ap (λ n. if eqb n 0 then "configured" else "missing_credentials")
        (length-select absent_name (sorted required) ∙ count-sorted absent_name required))

  -- The specification asks for the evaluation. The state is then `configured` exactly if every name
  -- that it requires is present, whatever names its lists hold.
  pub readiness_of-configured :
      (payload.state ≡ "configured")
      ↔ ((name : String) → contains required name ≡ true → present name ≡ true)
  readiness_of-configured = (
    (λ h name k.
        true_of_not (present name) (
          none_counted absent_name required (zero_of_configured _ (sym payload-state ∙ h)) name k)),
    (λ h.
        payload-state ∙ (rw (all_false absent_name required (λ name k. rw (h name k) refl)) refl)),
  )

  partition :
      (f : String → Bool)
      → count f payload.present_env + count f payload.missing_env
        ≡ count f required + count f readiness.credential_placeholders.optional_env
  unfolding checked
  partition f =
      let names = sorted required ++ sorted readiness.credential_placeholders.optional_env in
      rw asked (
        omega (
          arith,
          count-sorted f (select present names),
          count-sorted f (select absent_name names),
          count-select f present names,
          count-append f (sorted required) (sorted readiness.credential_placeholders.optional_env),
          count-sorted f required,
          count-sorted f readiness.credential_placeholders.optional_env,
        ))

  -- The specification asks for the evaluation. Whatever test is counted, the names that pass it in
  -- the lists of the present and the missing names are together as many as in the two lists of the
  -- specification: no name is lost and none counted twice. The count of missing required names is at
  -- most the number of required names that the payload lists, and at most that of missing names.
  pub readiness_of-partition :
      ((f : String → Bool)
        → count f payload.present_env + count f payload.missing_env
          ≡ count f required + count f readiness.credential_placeholders.optional_env)
      × (payload.missing_required_count ≤ length payload.required_env)
      × (payload.missing_required_count ≤ length payload.missing_env)
  unfolding checked
  readiness_of-partition =
      let optional = readiness.credential_placeholders.optional_env in
      let names = sorted required ++ sorted optional in
      (
        partition,
        rw asked (
            omega (
              arith,
              length-select absent_name (sorted required),
              count-le-length absent_name (sorted required),
            )),
        rw asked (
            omega (
              arith,
              length-select absent_name (sorted required),
              length-select absent_name names,
              length-sorted (select absent_name names),
              count-append absent_name (sorted required) (sorted optional),
            )),
      )

-- Two environments in which the same names are present and not blank give the same payload, whatever
-- the values are: no value of a variable can be read off the payload.
pub evaluate_connectivity_readiness-presence :
    (spec : RunSpec) (env env' : Environment) (now : Option String) (w : World)
    → ((name : String) → is_present_env env name ≡ is_present_env env' name)
    → evaluate_connectivity_readiness spec (some env) now w
      ≡ evaluate_connectivity_readiness spec (some env') now w
unfolding evaluate_connectivity_readiness observed_env ◌>>=◌
evaluate_connectivity_readiness-presence spec env env' now w h =
    ap
      (λ test.
        (effective_time now >>= λ ts. pure (readiness_of test spec spec.connectivity_readiness ts))
          w)
      (λ i name. h name i)
