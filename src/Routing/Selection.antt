-- ===== src/Routing/Selection.antt =====
-- What `Router.select` returns: the best eligible model, and an error only where there is none.
use production_local_llm_inf.Prelude.{
  ◌≡◌, ◌↔◌, ◌⊎◌, refl, true, false, none, List, [], ◌∷◌, arith, length, ◌∈◌, inl,
}
use production_local_llm_inf.Prelude.Float.{Float, IsOrdered, argmax_from-mem, le-argmax_from}
use production_local_llm_inf.Prelude.Result.{ok, raise}
use production_local_llm_inf.Models.{ChatCompletionRequest, ModelProfile, RouteDecision}
use production_local_llm_inf.Models.Enums.{PrivacyClass}
use production_local_llm_inf.Routing.Task.{Settled}
use production_local_llm_inf.Routing.Router.{
  Outside, Router, Terms, no_eligible_model, candidates, score,
}
use production_local_llm_inf.Routing.Select.{
  complexity_of, prediction_for, settled_task, decide, select_from, select,
}
use production_local_llm_inf.Routing.Eligible.{IsEligible, IsNamed, mem-candidates, candidates-mem}

module _ {F : Type 0} ⦃f : Float F⦄ where
  module _ (outside : Outside F) (router : Router F) (request : ChatCompletionRequest F)
      (terms : Terms F) where
    -- A model that the policy leaves for the request.
    abbrev pub IsCandidate : ModelProfile F → Type 0
    IsCandidate p =
        (p ∈ router.profiles)
        × IsEligible router request terms (settled_task outside router request terms).task p
        × IsNamed request p

    abbrev pub score_of : ModelProfile F → F
    score_of =
        score router outside.now request (settled_task outside router request terms).task
          (complexity_of (prediction_for router request))

  module _ (outside : Outside F) (router : Router F) (request : ChatCompletionRequest F)
      (terms : Terms F) where
    abbrev pub settled : Settled F
    settled = settled_task outside router request terms

    select_from-ok :
        (laws : IsOrdered F) (ps : List (ModelProfile F)) {d : RouteDecision F}
        → select_from outside router request terms settled
            (complexity_of (prediction_for router request))
            ps
          ≡ ok d
        → (d.profile ∈ ps)
          × (d.candidate_count ≡ length ps)
          × ((q : ModelProfile F)
              → q ∈ ps
              → f.le
                  (score_of outside router request terms q)
                  (score_of outside router request terms d.profile)
                ≡ true)
    unfolding select_from decide
    select_from-ok laws [] h = cc
    select_from-ok laws (p ∷ ps) h =
        let key = score_of outside router request terms in
        (
          ground (arith, argmax_from-mem key p ps),
          ground arith,
          λ q m. ground (arith, le-argmax_from key laws p ps q m),
        )

    IsCandidate-mem :
        (p : ModelProfile F)
        → IsCandidate outside router request terms p
        → p ∈ candidates router request terms settled.task
    IsCandidate-mem p (listed, good, names) =
        candidates-mem router request terms settled.task p listed good names

    -- Over a totally ordered score, what `select` returns is a model the policy leaves for the
    -- request, no model that the policy leaves scores higher, and the count reported is that of
    -- the models left.
    pub select-ok :
        (laws : IsOrdered F) {d : RouteDecision F}
        → select outside router request terms ≡ ok d
        → IsCandidate outside router request terms d.profile
          × ((q : ModelProfile F)
              → IsCandidate outside router request terms q
              → f.le
                  (score_of outside router request terms q)
                  (score_of outside router request terms d.profile)
                ≡ true)
          × (d.candidate_count ≡ length (candidates router request terms settled.task))
    unfolding select
    select-ok laws {d = d} h =
        let left = candidates router request terms settled.task in
        let (m, n, best) = select_from-ok laws left h in
        (
          mem-candidates router request terms settled.task d.profile m,
          λ q c. best q (IsCandidate-mem q c),
          n,
        )

    select_from-raise :
        (ps : List (ModelProfile F))
        → (select_from outside router request terms settled
              (complexity_of (prediction_for router request))
              ps
            ≡ raise no_eligible_model)
          ↔ (ps ≡ [])
    unfolding select_from
    select_from-raise [] = (λ h. refl, λ h. refl)
    select_from-raise (p ∷ ps) = (λ h. cc, λ h. cc)

    mem-empty : {A : Type 0} (xs : List A) → ((x : A) → ¬ (x ∈ xs)) → xs ≡ []
    mem-empty [] h = refl
    mem-empty (x ∷ xs) h = absurd (h x (inl refl))

    -- `select` reports that no model is eligible exactly when the policy leaves none.
    pub select-raise :
        (select outside router request terms ≡ raise no_eligible_model)
        ↔ ((p : ModelProfile F) → ¬ IsCandidate outside router request terms p)
    unfolding select
    select-raise =
        let left = candidates router request terms settled.task in
        (
          λ h p c.
              let none_left = (select_from-raise left).0 h in rw none_left at (IsCandidate-mem p c),
          λ h.
              (select_from-raise left).1 (
                mem-empty left (λ p m. h p (mem-candidates router request terms settled.task p m))),
        )

    -- What `select` returns is a local model, or a model outside for a public request on which the
    -- gateway, the tenant and the caller have all agreed; and a request that falls back from a
    -- failed model leaves the local engine.
    pub select_private_stays_local :
        (laws : IsOrdered F) {d : RouteDecision F}
        → select outside router request terms ≡ ok d
        → ((d.profile.local ≡ true)
            ⊎ ((request.routing.privacy ≡ PrivacyClass.public)
                × (router.external_fallback_enabled ≡ true)
                × (terms.tenant_allows_external ≡ true)
                × (request.routing.allow_external_fallback ≡ true)))
          × ((terms.fallback_from ≡ none) ⊎ (d.profile.local ≡ false))
    select_private_stays_local laws h =
        let (chosen, best, n) = select-ok laws h in
        let (listed, good, names) = chosen in
        (ground (arith, good.private_stays, good.agreed), good.leaves_engine)
