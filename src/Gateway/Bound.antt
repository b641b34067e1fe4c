-- ===== src/Gateway/Bound.antt =====
-- The slots of src/llm_router/app.py as requests interleave.
use production_local_llm_inf.Prelude.{
  ℕ, ◌+◌, ◌≡◌, refl, ap, Bool, none, some, List, [], ◌∷◌, ◌++◌, arith,
}
use production_local_llm_inf.Prelude.Float.{Float}
use production_local_llm_inf.Admission.Slots.{new_controller}
use production_local_llm_inf.Gateway.State.{
  Platform, Gateway, Stage, finished, waiting, failed, call_failed, call_interrupted,
}
use production_local_llm_inf.Gateway.Traffic.{
  World, Step, arrives, enters, leaves, ends, begins, yields_nothing, flows, dries, delivers, drops,
  probes, scrapes, stops, Reach, here, next, put_back,
}
use production_local_llm_inf.Gateway.Watch.{shut_down, readiness, prometheus_metrics}
use production_local_llm_inf.Gateway.Receive.{receive}
use production_local_llm_inf.Gateway.Streams.{
  ran_out, stream_begins, stream_flows, stream_stops, stream_delivered,
}
use production_local_llm_inf.Gateway.Leases.{stream_stops-Held, stream_delivered-Held}
use production_local_llm_inf.Gateway.Calls.{give_up, enter, engine_ends}
use production_local_llm_inf.Gateway.Slots.{
  Before, give_up-After, IsSound, holds, holding, holding-append, After, engine_ends-After,
  enter-After,
}
use production_local_llm_inf.Gateway.Steady.{receive-IsSteady}

module _ {F : Type 0} ⦃f : Float F⦄ where
  -- The controller counts the requests that hold a slot, and with the permits they make up `n`.
  abbrev pub IsAccounted : ℕ → World F → Type 0
  IsAccounted n w =
      IsSound n w.gateway.admission × (w.gateway.admission.in_flight ≡ holding w.requests)

  -- Of the requests around one that holds `h` slots.
  others :
      (before after : List (Stage F)) (s : Stage F)
      → holding (before ++ s ∷ after) ≡ holding before + holding after + holds s
  others before after s = omega (arith, holding-append before (s ∷ after))

  put_back-IsAccounted :
      (n : ℕ) (before after : List (Stage F)) (r : Gateway F × Stage F)
      → After n (holding before + holding after) r
      → IsAccounted n (put_back before after r)
  put_back-IsAccounted n before after r h = (h.0, omega (arith, h.1, others before after r.1))

  -- The request that takes the step holds a slot, and the others the rest.
  IsAccounted-Before :
      (n : ℕ) (w : World F) (before after : List (Stage F)) (s : Stage F)
      → w.requests ≡ before ++ s ∷ after
      → holds s ≡ 1
      → IsAccounted n w
      → Before n (holding before + holding after) w.gateway
  IsAccounted-Before n w before after s e one (sound, held) =
      (sound, omega (arith, held, ap holding e, others before after s, one))

  admission-readiness :
      (now : F) (engine_healthy : Bool) (g : Gateway F)
      → (readiness now engine_healthy g).0.admission ≡ g.admission
  unfolding readiness
  admission-readiness now engine_healthy g = ground arith

  Step-IsAccounted :
      (p : Platform F) (n : ℕ) (v w : World F) → Step p v w → IsAccounted n v → IsAccounted n w
  unfolding prometheus_metrics shut_down stream_begins stream_flows
  Step-IsAccounted p n v _ (arrives _ a) (sound, held) =
      let (kept, none_held) = receive-IsSteady p a v.gateway in
      let slots = ap (λ c. c.0) kept in
      put_back-IsAccounted n [] v.requests (receive p a v.gateway)
        (rw (slots) sound, rw (slots, none_held) (omega (arith, held)))
  Step-IsAccounted p n v _ (enters _ before after now t d e) (sound, held) =
      put_back-IsAccounted n before after (enter p now t d v.gateway) (
        enter-After n (holding before + holding after) p now t d v.gateway sound
          (omega (arith, held, ap holding e, others before after (waiting t d))))
  Step-IsAccounted p n v _ (leaves _ before after t d e) (sound, held) =
      put_back-IsAccounted n before after
        (v.gateway, finished (failed (call_failed call_interrupted)))
        (sound, omega (arith, held, ap holding e, others before after (waiting t d)))
  Step-IsAccounted p n v _ (ends _ before after now t d engine is_fallback ending fit e) h =
      put_back-IsAccounted n before after
        (engine_ends p now t d engine is_fallback ending v.gateway)
        (engine_ends-After n (holding before + holding after) p now t d engine is_fallback ending
          v.gateway (IsAccounted-Before n v before after _ e refl h))
  Step-IsAccounted p n v _ (begins _ before after t d engine is_fallback first streams e) h =
      put_back-IsAccounted n before after (stream_begins t d engine first v.gateway)
        (IsAccounted-Before n v before after _ e refl h)
  Step-IsAccounted p n v _ (yields_nothing _ before after now t d engine is_fallback streams e) h =
      put_back-IsAccounted n before after (stream_stops now t d engine [] ran_out v.gateway) (
        stream_stops-Held n (holding before + holding after) now t d engine [] ran_out v.gateway
          (IsAccounted-Before n v before after _ e refl h))
  Step-IsAccounted p n v _ (flows _ before after t d engine collected delta e) h =
      put_back-IsAccounted n before after (stream_flows t d engine collected delta v.gateway)
        (IsAccounted-Before n v before after _ e refl h)
  Step-IsAccounted p n v _ (dries _ before after now t d engine collected end e) h =
      put_back-IsAccounted n before after (stream_stops now t d engine collected end v.gateway) (
        stream_stops-Held n (holding before + holding after) now t d engine collected end v.gateway
          (IsAccounted-Before n v before after _ e refl h))
  Step-IsAccounted p n v _ (delivers _ before after now t d collected e) h =
      put_back-IsAccounted n before after (stream_delivered p now t d collected v.gateway) (
        stream_delivered-Held n (holding before + holding after) p now t d collected v.gateway
          (IsAccounted-Before n v before after _ e refl h))
  Step-IsAccounted p n v _ (drops _ before after t d collected e) h =
      put_back-IsAccounted n before after (give_up call_interrupted v.gateway) (
        give_up-After n (holding before + holding after) call_interrupted v.gateway
          (IsAccounted-Before n v before after _ e refl h))
  Step-IsAccounted p n v _ (probes _ now engine_healthy) (sound, held) =
      let kept = admission-readiness now engine_healthy v.gateway in
      (rw (kept) sound, rw (kept) held)
  Step-IsAccounted p n v _ (scrapes _ now none) h = h
  Step-IsAccounted p n v _ (scrapes _ now (some stats)) h = h
  Step-IsAccounted p n v _ (stops _) h = h

  -- However requests, streaming or not, interleave from an idle gateway of `n` slots, the
  -- controller's count in flight is the number of requests that an engine works for or whose
  -- stream is being sent, free permits and that count make up `n`, and the idle event is set
  -- exactly when the count is zero.
  pub Reach-IsAccounted :
      (p : Platform F) (n : ℕ) (g : Gateway F) (w : World F)
      → g.admission ≡ new_controller n
      → Reach p (record { gateway = g; requests = [] }) w
      → IsAccounted n w
  unfolding new_controller
  Reach-IsAccounted p n g _ e here = rw (e) ((omega arith, (λ _. refl, λ _. refl)), refl)
  Reach-IsAccounted p n g w e (next {v = v} reach step) =
      Step-IsAccounted p n v w step (Reach-IsAccounted p n g v e reach)
