-- ===== src/Resilience/Trial.antt =====
-- The trial request of src/llm_router/resilience.py: one at a time, and what its end does.
use production_local_llm_inf.Prelude.{
  ◌≡◌, ◌≢◌, ◌↔◌, inl, inr, Bool-cases, refl, ap, true, false, Option, none, some, List, [], ◌∷◌,
  if◌then◌else◌, arith,
}
use production_local_llm_inf.Prelude.Float.{Float}
use production_local_llm_inf.Resilience.Breaker.{
  CircuitBreaker, CircuitState, record_success, record_failure, abandon_trial, probe_succeeded,
  probed_at, state, state_of, allow, allow_in,
}
use production_local_llm_inf.Resilience.Backend.{
  Outcome, returned, unavailable, interrupted, from_engine, report, when_admitted, generate,
}
use production_local_llm_inf.Resilience.Circuit.{
  Event, asks, probed, succeeds, fails, abandons, step, after,
}

-- Events that bring no verdict on the trial: other requests, and probes.
unfoldable pub IsWaiting : {F : Type 0} → List (Event F) → Type 0
IsWaiting [] = Unit
IsWaiting (asks t ∷ es) = IsWaiting es
IsWaiting (probed ∷ es) = IsWaiting es
IsWaiting (_ ∷ es) = ⊥

-- The end of a call, the trial's or another one's.
unfoldable pub IsEnd : {F : Type 0} → Event F → Type 0
IsEnd succeeds = Unit
IsEnd (fails t) = Unit
IsEnd abandons = Unit
IsEnd _ = ⊥

module _ {F : Type 0} ⦃f : Float F⦄ where
  pub record IsTrial (b : CircuitBreaker F) : Type 0 where
    pub not_closed : b.opened_at ≢ none
    pub taken : b.trial_in_flight ≡ true

  refused_by :
      (o : Option F) (now : F) (b : CircuitBreaker F)
      → o ≢ none
      → b.trial_in_flight ≡ true
      → allow_in (state_of o now b) b ≡ (b, false)
  unfolding allow_in state_of
  refused_by none now b n t = absurd (n refl)
  refused_by (some since) now b n t = ground arith

  allow-IsTrial : (now : F) (b : CircuitBreaker F) → IsTrial b → allow now b ≡ (b, false)
  unfolding allow state
  allow-IsTrial now b h = refused_by b.opened_at now b h.not_closed h.taken

  probed_at-IsTrial : (o : Option F) (b : CircuitBreaker F) → IsTrial b → IsTrial (probed_at o b)
  unfolding probed_at
  probed_at-IsTrial none b h = h
  probed_at-IsTrial (some since) b h = record { not_closed = h.not_closed; taken = h.taken }

  asks-IsTrial : (t : F) (b : CircuitBreaker F) → IsTrial b → IsTrial (allow t b).0
  asks-IsTrial t b h = rw (allow-IsTrial t b h) h

  after-IsTrial :
      (b : CircuitBreaker F) (es : List (Event F)) → IsTrial b → IsWaiting es → IsTrial (after b es)
  unfolding after step IsWaiting probe_succeeded
  after-IsTrial b [] h w = h
  after-IsTrial b (asks t ∷ es) h w = asks-IsTrial t (after b es) (after-IsTrial b es h w)
  after-IsTrial b (probed ∷ es) h w =
      probed_at-IsTrial (after b es).opened_at (after b es) (after-IsTrial b es h w)
  after-IsTrial b (succeeds ∷ es) h w = absurd w
  after-IsTrial b (fails t ∷ es) h w = absurd w
  after-IsTrial b (abandons ∷ es) h w = absurd w

  freed_by :
      (o : Option F) (now : F) (b : CircuitBreaker F)
      → b.trial_in_flight ≡ false
      → ((allow_in (state_of o now b) b).1 ≡ true) ↔ (state_of o now b ≢ CircuitState.opened)
  unfolding allow_in state_of
  freed_by none now b free = ground arith
  freed_by (some since) now b free = ground arith

  step-free : (b : CircuitBreaker F) (e : Event F) → IsEnd e → (step e b).trial_in_flight ≡ false
  unfolding step IsEnd record_success record_failure abandon_trial
  step-free b (asks t) h = absurd h
  step-free b probed h = absurd h
  step-free b succeeds h = refl
  step-free b (fails t) h = elim (Bool-cases b.trial_in_flight) [
    | inl e ↦ rw e refl
    | inr e ↦ ground (arith, e)
  ]
  step-free b abandons h = refl

  -- While a trial is in flight on a circuit that is not closed, no request is admitted, at any
  -- time and after any number of other requests and good probes, as long as no call ends. The first
  -- call that ends, the trial or any other, frees the slot: a request is then admitted exactly when
  -- the circuit is not open.
  pub allow-after :
      (b : CircuitBreaker F) (es : List (Event F)) (end : Event F) (now : F)
      → b.opened_at ≢ none
      → b.trial_in_flight ≡ true
      → IsWaiting es
      → IsEnd end
      → ((allow now (after b es)).1 ≡ false)
        × (((allow now (after b (end ∷ es))).1 ≡ true)
            ↔ (state now (after b (end ∷ es)) ≢ CircuitState.opened))
  unfolding after allow state
  allow-after b es end now n t w ends = (
    ap (λ r. r.1)
        (allow-IsTrial now (after b es)
          (after-IsTrial b es (record { not_closed = n; taken = t }) w)),
    freed_by (step end (after b es)).opened_at now (step end (after b es))
        (step-free (after b es) end ends),
  )

  -- The state at `t` that the end of a trial at `later` calls for.
  unfoldable pub verdict : {A : Type 0} → Outcome A → F → F → CircuitBreaker F → CircuitState
  verdict (returned a) later t b = CircuitState.closed
  verdict unavailable later t b =
      if f.le b.cooldown_seconds (f.sub t later)
      then CircuitState.half_open
      else CircuitState.opened
  verdict interrupted later t b = state t b

  free_slot :
      (o : Option F) (now : F) (b : CircuitBreaker F)
      → state_of o now b ≡ CircuitState.half_open
      → b.trial_in_flight ≡ false
      → allow_in (state_of o now b) b ≡ (record b { trial_in_flight = true }, true)
  unfolding allow_in
  free_slot o now b h free = rw (h, allow_in) (rw free refl)

  state_of-trial :
      (o : Option F) (t : F) (b : CircuitBreaker F)
      → state_of o t (record b { trial_in_flight = false }) ≡ state_of o t b
  unfolding state_of
  state_of-trial none t b = refl
  state_of-trial (some since) t b = refl

  report-verdict :
      {A : Type 0} (later t : F) (outcome : Outcome A) (b : CircuitBreaker F)
      → (state t (report later outcome (record b { trial_in_flight = true }))
          ≡ verdict outcome later t b)
        × ((report later outcome (record b { trial_in_flight = true })).trial_in_flight ≡ false)
  unfolding verdict report state state_of record_failure record_success abandon_trial
  report-verdict later t (returned a) b = (refl, refl)
  report-verdict later t unavailable b = (refl, refl)
  report-verdict later t interrupted b = (state_of-trial b.opened_at t b, refl)

  -- A half-open circuit whose slot is free gives a call to the engine, and its end decides: a
  -- result closes the circuit, an unavailable engine starts a new cooldown at that time, and any
  -- other end leaves the circuit as it was. The slot is free again in each case.
  pub generate-trial :
      {A : Type 0} (now later t : F) (outcome : Outcome A) (b : CircuitBreaker F)
      → state now b ≡ CircuitState.half_open
      → b.trial_in_flight ≡ false
      → ((generate now later outcome b).1 ≡ from_engine outcome)
        × (state t (generate now later outcome b).0 ≡ verdict outcome later t b)
        × ((generate now later outcome b).0.trial_in_flight ≡ false)
  unfolding generate allow when_admitted state
  generate-trial now later t outcome b h free =
      rw (free_slot b.opened_at now b h free)
        (let (s, e) = report-verdict later t outcome b in (refl, s, e))
