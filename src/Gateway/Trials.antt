-- ===== src/Gateway/Trials.antt =====
-- The trials of half-open circuits, in the calls that src/llm_router/resilience.py wraps and
-- src/llm_router/app.py makes.
use production_local_llm_inf.Prelude.{
  ℕ, ◌+◌, ◌<◌, ◌≡◌, refl, ap, sym, ◌∙◌, Bool, true, false, List, [], ◌∷◌, ◌++◌, arith,
}
use mathlib.Core.Bool.{true≢false}
use production_local_llm_inf.Prelude.Float.{Float}
use production_local_llm_inf.Models.{RouteDecision}
use production_local_llm_inf.Resilience.Breaker.{
  CircuitBreaker, CircuitState, allow, allow_in, state, record_success, record_failure,
  abandon_trial,
}
use production_local_llm_inf.Resilience.Backend.{
  Outcome, returned, unavailable, interrupted, report,
}
use production_local_llm_inf.Dispatch.{Engine, local_engine, external_provider}
use production_local_llm_inf.Gateway.State.{
  Gateway, Ticket, Stage, finished, waiting, calling, streaming, finishing, circuit_of,
  with_circuit,
}

abbrev pub one_if_same : Engine → Engine → ℕ
one_if_same local_engine local_engine = 1
one_if_same local_engine external_provider = 0
one_if_same external_provider local_engine = 0
one_if_same external_provider external_provider = 1

module _ {F : Type 0} ⦃f : Float F⦄ where
  allow_in_refused :
      (s : CircuitState) (b : CircuitBreaker F) → (allow_in s b).1 ≡ false → (allow_in s b).0 ≡ b
  unfolding allow_in
  allow_in_refused CircuitState.closed b e = refl
  allow_in_refused CircuitState.opened b e = refl
  allow_in_refused CircuitState.half_open b e = ground arith

  -- A refusal leaves the circuit as it is.
  pub allow_refused : (now : F) (b c : CircuitBreaker F) → allow now b ≡ (c, false) → c ≡ b
  unfolding allow
  allow_refused now b c e =
      sym (ap (λ r. r.0) e) ∙ allow_in_refused (state now b) b (ap (λ r. r.1) e)

module _ {F : Type 0} where
  -- A call of the engine that has not ended.
  abbrev pub works_on : Engine → Stage F → ℕ
  works_on subject (finished reply) = 0
  works_on subject (waiting t d) = 0
  works_on subject (calling t d engine is_fallback) = one_if_same subject engine
  works_on subject (streaming t d engine collected) = one_if_same subject engine
  works_on subject (finishing t d collected) = 0

  abbrev pub working : Engine → List (Stage F) → ℕ
  working subject [] = 0
  working subject (s ∷ ss) = works_on subject s + working subject ss

  pub working-append :
      (subject : Engine) (xs ys : List (Stage F))
      → working subject (xs ++ ys) ≡ working subject xs + working subject ys
  working-append subject [] ys = omega arith
  working-append subject (x ∷ xs) ys = omega (arith, working-append subject xs ys)

  -- With `k` calls of the engine by others: a trial that is in flight is one of theirs, or this one's.
  abbrev pub Before : Engine → ℕ → Gateway F → Type 0
  Before subject k g = (circuit_of subject g).trial_in_flight ≡ true → 0 < k

  abbrev pub After : Engine → ℕ → Gateway F × Stage F → Type 0
  After subject k r = (circuit_of subject r.0).trial_in_flight ≡ true → 0 < k + works_on subject r.1

  trial-report :
      {A : Type 0} (now : F) (outcome : Outcome A) (b : CircuitBreaker F)
      → (report now outcome b).trial_in_flight ≡ false
  unfolding report record_success record_failure abandon_trial
  trial-report now (returned result) b = refl
  trial-report now unavailable b = ground arith
  trial-report now interrupted b = refl

  pub circuit_of-same :
      (subject : Engine) (h g : Gateway F)
      → (g.local_circuit ≡ h.local_circuit) × (g.external_circuit ≡ h.external_circuit)
      → circuit_of subject h ≡ circuit_of subject g
  circuit_of-same local_engine h g same = sym same.0
  circuit_of-same external_provider h g same = sym same.1

  -- The engine's circuit has a trial in flight only if it had one, or if it reported.
  pub with_circuit-Before :
      (subject engine : Engine) (k : ℕ) (b : CircuitBreaker F) (g : Gateway F)
      → (b.trial_in_flight ≡ true → (circuit_of engine g).trial_in_flight ≡ true)
      → Before subject k g
      → Before subject k (with_circuit engine b g)
  with_circuit-Before local_engine local_engine k b g kept before trial = before (kept trial)
  with_circuit-Before local_engine external_provider k b g kept before trial = before trial
  with_circuit-Before external_provider local_engine k b g kept before trial = before trial
  with_circuit-Before external_provider external_provider k b g kept before trial =
      before (kept trial)

  pub with_circuit-After :
      (subject engine : Engine) (k : ℕ) (b : CircuitBreaker F) (g : Gateway F) (t : Ticket F)
      (d : RouteDecision F) (is_fallback : Bool)
      → Before subject k g
      → After subject k (with_circuit engine b g, calling t d engine is_fallback)
  with_circuit-After local_engine local_engine k b g t d is_fallback before trial = omega arith
  with_circuit-After local_engine external_provider k b g t d is_fallback before trial =
      omega (arith, before trial)
  with_circuit-After external_provider local_engine k b g t d is_fallback before trial =
      omega (arith, before trial)
  with_circuit-After external_provider external_provider k b g t d is_fallback before trial =
      omega arith

  -- An engine's report ends its trial, whoever's call it was.
  pub report-Before :
      {A : Type 0} (subject engine : Engine) (k : ℕ) (now : F) (outcome : Outcome A) (g : Gateway F)
      → Before subject (k + one_if_same subject engine) g
      → Before subject k (with_circuit engine (report now outcome (circuit_of engine g)) g)
  report-Before local_engine local_engine k now outcome g before trial =
      absurd (true≢false (sym trial ∙ trial-report now outcome _))
  report-Before local_engine external_provider k now outcome g before trial =
      omega (arith, before trial)
  report-Before external_provider local_engine k now outcome g before trial =
      omega (arith, before trial)
  report-Before external_provider external_provider k now outcome g before trial =
      absurd (true≢false (sym trial ∙ trial-report now outcome _))
