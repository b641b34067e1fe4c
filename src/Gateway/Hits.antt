-- ===== src/Gateway/Hits.antt =====
-- The exact cache between two requests of src/llm_router/app.py.
use production_local_llm_inf.Prelude.{
  ℕ, ◌<◌, ◌≡◌, length, refl, ◌∙◌, true, false, Option, none, some, List, String, arith,
}
use production_local_llm_inf.Prelude.Float.{Float}
use production_local_llm_inf.Models.{RouteDecision, prompt}
use production_local_llm_inf.Caching.Keys.{exact_cache_eligible, build_cache_key, material}
use production_local_llm_inf.Caching.Store.{
  CacheStore, CachedCompletion, Call, store_after, act, fetch, save,
}
use production_local_llm_inf.Caching.Kept.{acted, LeaveAlone, fetch-acted}
use production_local_llm_inf.Gateway.State.{Platform, Gateway, Ticket, BackendResult, exact_hit}
use production_local_llm_inf.Gateway.Caches.{
  is_canary, entry_of, after_exact, lookup_cache, store_cache,
}
use production_local_llm_inf.Gateway.Receive.{Arrival, ticket_of, entitlement}
use production_local_llm_inf.Gateway.Floor.{effective_payload-model}

module _ {F : Type 0} ⦃f : Float F⦄ where
  -- The same arrival for another model.
  abbrev pub for_model : String → Arrival F → Arrival F
  for_model model a = record a { declared = record a.declared { model = model } }

  ticket_of-key :
      (p : Platform F) (a : Arrival F) (model : String)
      → (ticket_of p (for_model model a)).cache_key ≡ (ticket_of p a).cache_key
  unfolding ticket_of build_cache_key material prompt
  ticket_of-key p a model =
      rw (effective_payload-model (entitlement p a.tenant_id) a.declared model) refl

  ticket_of-eligible :
      (p : Platform F) (a : Arrival F) (model : String)
      → exact_cache_eligible (ticket_of p (for_model model a)).payload
        ≡ exact_cache_eligible (ticket_of p a).payload
  unfolding ticket_of exact_cache_eligible
  ticket_of-eligible p a model =
      rw (effective_payload-model (entitlement p a.tenant_id) a.declared model) refl

  after_exact-hit :
      (p : Platform F) (t : Ticket F) (g : Gateway F) (r : CacheStore F × Option CachedCompletion)
      (entry : CachedCompletion)
      → r.1 ≡ some entry
      → (after_exact p g t r).1 ≡ some (exact_hit, entry)
  unfolding after_exact
  after_exact-hit p t g (exact, none) entry e = ground arith
  after_exact-hit p t g (exact, some found) entry e = ground arith

  lookup_cache-hit :
      (p : Platform F) (later : F) (t : Ticket F) (g : Gateway F) (entry : CachedCompletion)
      → p.cache_enabled ≡ true
      → exact_cache_eligible t.payload ≡ true
      → (fetch later t.cache_key g.exact).1 ≡ some entry
      → (lookup_cache p later t g).1 ≡ some (exact_hit, entry)
  unfolding lookup_cache
  lookup_cache-hit p later t g entry enabled eligible hit =
      rw (enabled, eligible) (after_exact-hit p t g (fetch later t.cache_key g.exact) entry hit)

  exact-store_cache :
      (p : Platform F) (now : F) (t : Ticket F) (d : RouteDecision F) (result : BackendResult)
      (g : Gateway F)
      → p.cache_enabled ≡ true
      → exact_cache_eligible t.payload ≡ true
      → is_canary d.canary_arm ≡ false
      → (store_cache p now t d result g).exact ≡ save now t.cache_key (entry_of d result) g.exact
  unfolding store_cache
  exact-store_cache p now t d result g enabled eligible stable = rw (enabled, eligible, stable) refl

  -- With caching on, what a decision that is not on a canary's own arm answered to an eligible
  -- request is what the exact cache answers, before it expires and after fewer other calls of the
  -- exact cache than its size, none of which stores under the same key or looks up after the expiry,
  -- to the same tenant's same request for any model: the entry names the model of the first
  -- decision, whichever the second request asks for.
  pub lookup_cache-store_cache :
      (p : Platform F) (a : Arrival F) (model : String) (d : RouteDecision F)
      (result : BackendResult) (g after : Gateway F) (max_entries : ℕ) (ttl : F)
      (cs between : List (Call F)) (now later : F)
      → p.cache_enabled ≡ true
      → exact_cache_eligible (ticket_of p a).payload ≡ true
      → is_canary d.canary_arm ≡ false
      → g.exact ≡ store_after max_entries ttl cs
      → after.exact ≡ acted between (store_cache p now (ticket_of p a) d result g).exact
      → LeaveAlone (ticket_of p a).cache_key (f.add now ttl) between
      → length between < max_entries
      → f.le (f.add now ttl) later ≡ false
      → (lookup_cache p later (ticket_of p (for_model model a)) after).1
        ≡ some (exact_hit, entry_of d result)
  unfolding store_after act
  lookup_cache-store_cache p a model d result g after max_entries ttl cs between now later enabled
        eligible stable kept reached alone few fresh =
      let t = ticket_of p a in
      let again = ticket_of p (for_model model a) in
      lookup_cache-hit p later again after (entry_of d result) enabled
        (ticket_of-eligible p a model ∙ eligible)
        (rw
          (
            reached,
            exact-store_cache p now t d result g enabled eligible stable,
            ticket_of-key p a model,
            kept,
          )
          (fetch-acted max_entries ttl cs between now later t.cache_key (entry_of d result) alone
            few fresh))
