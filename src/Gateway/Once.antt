-- ===== src/Gateway/Once.antt =====
-- The fallback of src/llm_router/app.py as requests interleave.
use production_local_llm_inf.Prelude.{◌≡◌, refl, true, [], ◌∈◌}
use production_local_llm_inf.Prelude.Float.{Float, IsOrdered}
use production_local_llm_inf.Models.{RouteDecision}
use production_local_llm_inf.Dispatch.{Engine, external_provider}
use production_local_llm_inf.Gateway.State.{
  Platform, Gateway, Ticket, finished, calling, Reply, Ending, answered, fails, breaks,
}
use production_local_llm_inf.Gateway.Calls.{give_up, complete, ended, engine_ends}
use production_local_llm_inf.Gateway.Traffic.{World, Reach}
use production_local_llm_inf.Gateway.Outside.{Reach-AllSafe}

module _ {F : Type 0} ⦃f : Float F⦄ (laws : IsOrdered F) (p : Platform F) where
  ended_fallback :
      (now : F) (t : Ticket F) (d : RouteDecision F) (ending : Ending) (g : Gateway F)
      → (reply : Reply F) × ((ended p now t d true ending g).1 ≡ finished reply)
  unfolding ended complete give_up
  ended_fallback now t d (answered result) g = (_, refl)
  ended_fallback now t d (fails failure) g = (_, refl)
  ended_fallback now t d breaks g = (_, refl)

  -- However requests interleave, a request that has fallen back and waits for its engine is with
  -- the provider outside; and when that call ends, other than by a stream that begins, the
  -- request is answered, with no further attempt.
  pub Reach-fallback :
      (g : Gateway F) (w : World F) (t : Ticket F) (d : RouteDecision F) (engine : Engine)
      → Reach p (record { gateway = g; requests = [] }) w
      → calling t d engine true ∈ w.requests
      → (engine ≡ external_provider)
        × ((now : F) (ending : Ending)
            → (reply : Reply F) × ((engine_ends p now t d engine true ending w.gateway).1
                ≡ finished reply))
  unfolding engine_ends
  Reach-fallback g w t d engine reach m = (
    (Reach-AllSafe laws p g w reach (calling t d engine true) m).1 refl,
    λ now ending. ended_fallback now t d ending _,
  )
