-- ===== src/Resilience/Circuit.antt =====
-- What the circuit breaker promises over any history of what is reported to it.
use production_local_llm_inf.Prelude.{
  ℕ, ◌+◌, ◌<◌, ◌≡◌, ◌≢◌, ◌↔◌, ◌⊎◌, inl, inr, refl, true, false, Option, none, some, List, [], ◌∷◌,
  arith,
}
use production_local_llm_inf.Prelude.Float.{Float}
use production_local_llm_inf.Resilience.Breaker.{
  CircuitBreaker, CircuitState, new_breaker, record_success, record_failure, abandon_trial,
  probe_succeeded, probed_at, state, state_of, allow, allow_in,
}

-- What reaches the breaker: a request that asks, a verdict, an end without one, a good probe.
pub data Event (F : Type 0) : Type 0 where
  asks : F → Event F
  succeeds : Event F
  fails : F → Event F
  abandons : Event F
  probed : Event F

-- The failures since the last success, of a history with the newest event first.
unfoldable pub recent_failures : {F : Type 0} → List (Event F) → ℕ
recent_failures [] = 0
recent_failures (succeeds ∷ es) = 0
recent_failures (fails t ∷ es) = recent_failures es + 1
recent_failures (asks t ∷ es) = recent_failures es
recent_failures (abandons ∷ es) = recent_failures es
recent_failures (probed ∷ es) = recent_failures es

module _ {F : Type 0} ⦃f : Float F⦄ where
  unfoldable pub step : Event F → CircuitBreaker F → CircuitBreaker F
  unfolding allow record_success record_failure abandon_trial probe_succeeded
  step (asks t) b = (allow t b).0
  step succeeds b = record_success b
  step (fails t) b = record_failure t b
  step abandons b = abandon_trial b
  step probed b = probe_succeeded b

  unfoldable pub after : CircuitBreaker F → List (Event F) → CircuitBreaker F
  unfolding step
  after b [] = b
  after b (e ∷ es) = step e (after b es)

  -- A closed circuit has no trial and no probe on it.
  pub record IsSound (threshold failures : ℕ) (b : CircuitBreaker F) : Type 0 where
    pub limit : b.failure_threshold ≡ threshold
    pub counted : b.failures ≡ failures
    pub closed_below : (b.opened_at ≡ none) ↔ (failures < threshold)
    pub quiet : b.opened_at ≡ none → (b.trial_in_flight ≡ false) × (b.half_open ≡ false)

  -- A request that asks changes nothing, or takes the trial of a circuit that is not closed.
  allow-cases :
      (t : F) (b : CircuitBreaker F)
      → ((allow t b).0 ≡ b)
        ⊎ ((b.opened_at ≢ none) × ((allow t b).0 ≡ record b { trial_in_flight = true }))
  unfolding allow state state_of allow_in
  allow-cases t b = go b.opened_at refl
    where
      go :
          (o : Option F)
          → b.opened_at ≡ o
          → ((allow_in (state_of o t b) b).0 ≡ b)
            ⊎ ((b.opened_at ≢ none)
                × ((allow_in (state_of o t b) b).0 ≡ record b { trial_in_flight = true }))
      go none e = inl refl
      go (some since) e = ground (arith, e)

  probe-cases :
      (b : CircuitBreaker F)
      → (probe_succeeded b ≡ b)
        ⊎ ((b.opened_at ≢ none) × (probe_succeeded b ≡ record b { half_open = true }))
  unfolding probe_succeeded probed_at
  probe-cases b = go b.opened_at refl
    where
      go :
          (o : Option F)
          → b.opened_at ≡ o
          → (probed_at o b ≡ b)
            ⊎ ((b.opened_at ≢ none) × (probed_at o b ≡ record b { half_open = true }))
      go none e = inl refl
      go (some since) e = inr (λ n. cc, refl)

  step-IsSound :
      (threshold : ℕ) (positive : 0 < threshold) (e : Event F) (es : List (Event F))
      (b : CircuitBreaker F)
      → IsSound threshold (recent_failures es) b
      → IsSound threshold (recent_failures (e ∷ es)) (step e b)
  unfolding step recent_failures record_failure
  step-IsSound threshold positive (asks t) es b h = elim (allow-cases t b) [
    | inl same ↦ rw same h
    | inr (open_now, taken) ↦ rw taken (record {
      limit = h.limit;
      counted = h.counted;
      closed_below = h.closed_below;
      quiet = λ e. absurd (open_now e);
    })
  ]
  step-IsSound threshold positive succeeds es b h = ground arith
  step-IsSound threshold positive (fails t) es b h = failed t es b h
    where
      failed :
          (t : F) (es : List (Event F)) (b : CircuitBreaker F)
          → IsSound threshold (recent_failures es) b
          → IsSound threshold (recent_failures es + 1) (record_failure t b)
      failed t es b h = ground arith
  step-IsSound threshold positive abandons es b h = ground arith
  step-IsSound threshold positive probed es b h = elim (probe-cases b) [
    | inl same ↦ rw same h
    | inr (open_now, good) ↦ rw good (record {
      limit = h.limit;
      counted = h.counted;
      closed_below = h.closed_below;
      quiet = λ e. absurd (open_now e);
    })
  ]

  after-IsSound :
      (threshold : ℕ) (cooldown : F) (positive : 0 < threshold) (es : List (Event F))
      → IsSound threshold (recent_failures es) (after (new_breaker threshold cooldown) es)
  unfolding after recent_failures new_breaker
  after-IsSound threshold cooldown positive [] = ground arith
  after-IsSound threshold cooldown positive (e ∷ es) =
      step-IsSound threshold positive e es (after (new_breaker threshold cooldown) es)
        (after-IsSound threshold cooldown positive es)

  -- Whatever happened to it, a breaker with a positive threshold is closed exactly when fewer
  -- failures than the threshold were reported since the last success. Any reported success counts,
  -- that of a trial or of a call that was admitted before the circuit opened; trials, probes and
  -- requests without a verdict do not matter.
  pub state-after :
      (threshold : ℕ) (cooldown : F) (positive : 0 < threshold) (es : List (Event F)) (now : F)
      → (state now (after (new_breaker threshold cooldown) es) ≡ CircuitState.closed)
        ↔ (recent_failures es < threshold)
  unfolding state state_of
  state-after threshold cooldown positive es now = ground (
    arith,
    (after-IsSound threshold cooldown positive es).closed_below,
    closed_iff (after (new_breaker threshold cooldown) es) now
        (after (new_breaker threshold cooldown) es).opened_at,
  )
    where
      closed_iff :
          (b : CircuitBreaker F) (now : F) (o : Option F)
          → (state_of o now b ≡ CircuitState.closed) ↔ (o ≡ none)
      closed_iff b now none = (λ e. refl, λ e. refl)
      closed_iff b now (some since) = ground arith
