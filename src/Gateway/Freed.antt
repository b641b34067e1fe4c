-- ===== src/Gateway/Freed.antt =====
-- The trials of the circuits as requests to src/llm_router/app.py interleave.
use production_local_llm_inf.Prelude.{
  ℕ, zero, suc, ◌+◌, ◌<◌, ◌≡◌, ◌⊎◌, none, some, refl, ap, sym, ◌∙◌, true, false, Bool, Option, List,
  [], ◌∷◌, ◌++◌, ◌∈◌, arith, inl, inr,
}
use mathlib.Core.Bool.{true≢false}
use production_local_llm_inf.Prelude.Float.{Float}
use production_local_llm_inf.Dispatch.{Engine, local_engine, external_provider}
use production_local_llm_inf.Gateway.State.{
  Platform, Gateway, Stage, finished, waiting, calling, streaming, finishing, failed, call_failed,
  call_interrupted, circuit_of,
}
use production_local_llm_inf.Gateway.Watch.{shut_down, readiness, prometheus_metrics}
use production_local_llm_inf.Resilience.Breaker.{CircuitBreaker, probe_succeeded, probed_at}
use production_local_llm_inf.Resilience.Backend.{healthy}
use production_local_llm_inf.Gateway.Receive.{receive}
use production_local_llm_inf.Gateway.Streams.{
  ran_out, stream_begins, stream_flows, stream_stops, stream_delivered,
}
use production_local_llm_inf.Gateway.Leases.{stream_stops-Tried, stream_delivered-Tried}
use production_local_llm_inf.Gateway.Calls.{give_up, enter, engine_ends}
use production_local_llm_inf.Gateway.Traffic.{
  World, Step, arrives, enters, leaves, ends, begins, yields_nothing, flows, dries, delivers, drops,
  probes, scrapes, stops, Reach, here, next, put_back,
}
use production_local_llm_inf.Gateway.Steady.{receive-IsSteady}
use production_local_llm_inf.Gateway.Trials.{works_on, working, working-append, Before, After}
use production_local_llm_inf.Gateway.Attempts.{
  give_up-After, same-After, same-Before, enter-After, engine_ends-After,
}

positive_sum : (m n : ℕ) → 0 < m + n → (0 < m) ⊎ (0 < n)
positive_sum zero n h = inr (omega (arith, h))
positive_sum (suc m) n h = inl (omega arith)

module _ {F : Type 0} where
  working-mem :
      (subject : Engine) (requests : List (Stage F))
      → 0 < working subject requests
      → (s : Stage F) × (s ∈ requests) × (0 < works_on subject s)
  working-mem subject [] h = absurd (omega (arith, h))
  working-mem subject (s ∷ ss) h = elim (positive_sum (works_on subject s) (working subject ss) h) [
    | inl one ↦ (s, inl refl, one)
    | inr more ↦ (let (r, m, one) = working-mem subject ss more in (r, inr m, one))
  ]

module _ {F : Type 0} ⦃f : Float F⦄ (p : Platform F) (subject : Engine) where
  abbrev IsManned : World F → Type 0
  IsManned w = Before subject (working subject w.requests) w.gateway

  around :
      (before after : List (Stage F)) (s : Stage F)
      → working subject (before ++ s ∷ after)
        ≡ working subject before + working subject after + works_on subject s
  around before after s = omega (arith, working-append subject before (s ∷ after))

  put_back-IsManned :
      (before after : List (Stage F)) (r : Gateway F × Stage F)
      → After subject (working subject before + working subject after) r
      → IsManned (put_back before after r)
  put_back-IsManned before after r h trial = omega (arith, h trial, around before after r.1)

  -- The requests other than the one that takes the step.
  Before-others :
      (w : World F) (before after : List (Stage F)) (s : Stage F)
      → w.requests ≡ before ++ s ∷ after
      → IsManned w
      → Before subject
          (working subject before + working subject after + works_on subject s)
          w.gateway
  Before-others w before after s e manned trial =
      omega (arith, manned trial, ap (working subject) e, around before after s)

  plus_zero-Before : (k : ℕ) (g : Gateway F) → Before subject (k + 0) g → Before subject k g
  plus_zero-Before k g h trial = omega (arith, h trial)

  trial-probed_at :
      (o : Option F) (b : CircuitBreaker F) → (probed_at o b).trial_in_flight ≡ b.trial_in_flight
  unfolding probed_at
  trial-probed_at none b = refl
  trial-probed_at (some since) b = refl

  trial-healthy :
      (now : F) (engine_healthy : Bool) (b : CircuitBreaker F)
      → (healthy now engine_healthy b).0.trial_in_flight ≡ b.trial_in_flight
  unfolding healthy probe_succeeded probed_at
  trial-healthy now false b = refl
  trial-healthy now true b = trial-probed_at b.opened_at b

  trials-readiness :
      (now : F) (engine_healthy : Bool) (g : Gateway F)
      → ((readiness now engine_healthy g).0.local_circuit.trial_in_flight
          ≡ g.local_circuit.trial_in_flight)
        × ((readiness now engine_healthy g).0.external_circuit ≡ g.external_circuit)
  unfolding readiness
  trials-readiness now engine_healthy g =
      (ground (arith, trial-healthy now engine_healthy g.local_circuit), ground arith)

  Before-readiness :
      (s : Engine) (k : ℕ) (now : F) (engine_healthy : Bool) (g : Gateway F)
      → Before s k g
      → Before s k (readiness now engine_healthy g).0
  Before-readiness local_engine k now engine_healthy g h trial =
      h (sym (trials-readiness now engine_healthy g).0 ∙ trial)
  Before-readiness external_provider k now engine_healthy g h trial =
      h (sym (ap (λ b. b.trial_in_flight) (trials-readiness now engine_healthy g).1) ∙ trial)

  Step-IsManned : (v w : World F) → Step p v w → IsManned v → IsManned w
  unfolding prometheus_metrics shut_down stream_begins stream_flows
  Step-IsManned v _ (arrives _ a) manned =
      let kept = (receive-IsSteady p a v.gateway).0 in
      put_back-IsManned [] v.requests (receive p a v.gateway) (
        same-After subject (0 + working subject v.requests) v.gateway (receive p a v.gateway)
          (ap (λ c. c.1) kept, ap (λ c. c.2) kept) (λ trial. omega (arith, manned trial)))
  Step-IsManned v _ (enters _ before after now t d e) manned =
      let k = working subject before + working subject after in
      put_back-IsManned before after (enter p now t d v.gateway) (
        enter-After subject k p now t d v.gateway
          (plus_zero-Before k v.gateway (Before-others v before after (waiting t d) e manned)))
  Step-IsManned v _ (leaves _ before after t d e) manned =
      let k = working subject before + working subject after in
      let r : Gateway F × Stage F = (v.gateway, finished (failed (call_failed call_interrupted))) in
      put_back-IsManned before after r (
        same-After subject k v.gateway r (refl, refl)
          (plus_zero-Before k v.gateway (Before-others v before after (waiting t d) e manned)))
  Step-IsManned v _ (ends _ before after now t d engine is_fallback ending fit e) manned =
      put_back-IsManned before after (engine_ends p now t d engine is_fallback ending v.gateway) (
        engine_ends-After subject (working subject before + working subject after) p now t d engine
          is_fallback ending v.gateway
          (Before-others v before after (calling t d engine is_fallback) e manned))
  Step-IsManned v _ (begins _ before after t d engine is_fallback first streams e) manned =
      put_back-IsManned before after (stream_begins t d engine first v.gateway)
        (Before-others v before after (calling t d engine is_fallback) e manned)
  Step-IsManned v _ (yields_nothing _ before after now t d engine is_fallback streams e) manned =
      put_back-IsManned before after (stream_stops now t d engine [] ran_out v.gateway) (
        stream_stops-Tried subject (working subject before + working subject after) now t d engine
          [] ran_out v.gateway
          (Before-others v before after (calling t d engine is_fallback) e manned))
  Step-IsManned v _ (flows _ before after t d engine collected delta e) manned =
      put_back-IsManned before after (stream_flows t d engine collected delta v.gateway)
        (Before-others v before after (streaming t d engine collected) e manned)
  Step-IsManned v _ (dries _ before after now t d engine collected end e) manned =
      put_back-IsManned before after (stream_stops now t d engine collected end v.gateway) (
        stream_stops-Tried subject (working subject before + working subject after) now t d engine
          collected end v.gateway
          (Before-others v before after (streaming t d engine collected) e manned))
  Step-IsManned v _ (delivers _ before after now t d collected e) manned =
      let k = working subject before + working subject after in
      put_back-IsManned before after (stream_delivered p now t d collected v.gateway) (
        stream_delivered-Tried subject k p now t d collected v.gateway (
          plus_zero-Before k v.gateway
            (Before-others v before after (finishing t d collected) e manned)))
  Step-IsManned v _ (drops _ before after t d collected e) manned =
      let k = working subject before + working subject after in
      put_back-IsManned before after (give_up call_interrupted v.gateway) (
        give_up-After subject k call_interrupted v.gateway (
          plus_zero-Before k v.gateway
            (Before-others v before after (finishing t d collected) e manned)))
  Step-IsManned v _ (probes _ now engine_healthy) manned =
      Before-readiness subject (working subject v.requests) now engine_healthy v.gateway manned
  Step-IsManned v _ (scrapes _ now none) manned = manned
  Step-IsManned v _ (scrapes _ now (some stats)) manned =
      same-Before subject (working subject v.requests) v.gateway _ (refl, refl) manned
  Step-IsManned v _ (stops _) manned =
      same-Before subject (working subject v.requests) v.gateway (shut_down v.gateway) (refl, refl)
        manned

  Reach-IsManned :
      (g : Gateway F) (w : World F)
      → (circuit_of subject g).trial_in_flight ≡ false
      → Reach p (record { gateway = g; requests = [] }) w
      → IsManned w
  Reach-IsManned g _ e here = λ trial. absurd (true≢false (sym trial ∙ e))
  Reach-IsManned g w e (next {v = v} reach step) =
      Step-IsManned v w step (Reach-IsManned g v e reach)

  -- However requests, streaming or not, interleave from a gateway where an engine's circuit has
  -- no trial in flight, while that circuit counts a trial as in flight its engine works for some
  -- request, on a call or on a stream.
  pub Reach-trial :
      (g : Gateway F) (w : World F)
      → (circuit_of subject g).trial_in_flight ≡ false
      → Reach p (record { gateway = g; requests = [] }) w
      → (circuit_of subject w.gateway).trial_in_flight ≡ true
      → (s : Stage F) × (s ∈ w.requests) × (0 < works_on subject s)
  Reach-trial g w e reach trial = working-mem subject w.requests (Reach-IsManned g w e reach trial)
