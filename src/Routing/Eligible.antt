-- ===== src/Routing/Eligible.antt =====
-- What an eligible model is, and that the candidates are exactly the eligible ones.
use production_local_llm_inf.Prelude.{
  ◌≤◌, ◌≡◌, ◌⊎◌, refl, Bool, true, false, not, Option, none, some, List, String, all, all-at,
  all-of, filter, mem-filter, filter-mem, elem, elem_iff, ◌∈◌, is_none, ◌||◌, if◌then◌else◌, ◌==◌,
  arith, inl, inr, string_eq, Bool-cases, eq_iff,
}
use production_local_llm_inf.Prelude.Float.{Float, fmax}
use production_local_llm_inf.Models.{ChatCompletionRequest, ModelProfile, quality_for}
use production_local_llm_inf.Models.Enums.{
  TaskClass, PrivacyClass, Modality, task_eq, privacy_eq, modality_eq, privacy_beq_iff,
}
use production_local_llm_inf.Routing.Router.{
  Router, Terms, permits, privacy_allows, external_allows, estimated_tokens, eligible, named,
  candidates,
}

abbrev Permitted : Option (List String) → String → Type 0
Permitted none id = Unit
Permitted (some ids) id = id ∈ ids

Permitted-permits : (o : Option (List String)) (id : String) → permits o id ≡ true → Permitted o id
Permitted-permits none id h = tt
Permitted-permits (some ids) id h = (elem_iff id ids).0 h

is_none-eq : {A : Type 0} (o : Option A) → is_none o ≡ true → o ≡ none
is_none-eq none h = refl
is_none-eq (some a) h = cc

permits-Permitted : (o : Option (List String)) (id : String) → Permitted o id → permits o id ≡ true
permits-Permitted none id h = refl
permits-Permitted (some ids) id h = (elem_iff id ids).1 h

module _ {F : Type 0} ⦃f : Float F⦄ where
  -- The hard restrictions of section 7: health, capability, context, quality, structure, modality,
  -- privacy, agreement to go outside, entitlement, and a fallback away from the local engine.
  pub record IsEligible (router : Router F) (request : ChatCompletionRequest F) (terms : Terms F)
      (task : TaskClass) (p : ModelProfile F) : Type 0 where
    pub healthy : p.healthy ≡ true
    pub capable : task ∈ p.supported_tasks
    pub fits_context : estimated_tokens request ≤ p.context_limit
    pub good_enough :
        f.le (fmax request.routing.quality_floor terms.quality_floor) (quality_for p task) ≡ true
    pub structured : request.routing.structured ≡ true → p.supports_structured_output ≡ true
    pub modal : (m : Modality) → m ∈ request.routing.modalities → m ∈ p.modalities
    pub private_stays : (p.local ≡ true) ⊎ (request.routing.privacy ≡ PrivacyClass.public)
    pub agreed :
        (p.local ≡ true)
        ⊎ ((router.external_fallback_enabled ≡ true)
            × (terms.tenant_allows_external ≡ true)
            × (request.routing.allow_external_fallback ≡ true))
    pub permitted : Permitted terms.permitted_models p.id
    pub leaves_engine : (terms.fallback_from ≡ none) ⊎ (p.local ≡ false)

  eligible-IsEligible :
      (router : Router F) (request : ChatCompletionRequest F) (terms : Terms F) (task : TaskClass)
      (p : ModelProfile F)
      → eligible router request terms task p ≡ true
      → IsEligible router request terms task p
  unfolding eligible privacy_allows external_allows
  eligible-IsEligible router request terms task p h = record {
    healthy = ground arith;
    capable = ground (arith, elem_iff task p.supported_tasks);
    fits_context = ground arith;
    good_enough = ground arith;
    structured = λ s. ground arith;
    modal = λ m i. ground (
      arith,
      all-at (λ m. elem m p.modalities) request.routing.modalities m,
      elem_iff m p.modalities,
    );
    private_stays = ground (arith, privacy_beq_iff request.routing.privacy PrivacyClass.public);
    agreed = ground arith;
    permitted = Permitted-permits terms.permitted_models p.id (ground arith);
    leaves_engine = ground (arith, is_none-eq terms.fallback_from);
  }

  IsEligible-eligible :
      (router : Router F) (request : ChatCompletionRequest F) (terms : Terms F) (task : TaskClass)
      (p : ModelProfile F)
      → IsEligible router request terms task p
      → eligible router request terms task p ≡ true
  unfolding eligible privacy_allows external_allows
  IsEligible-eligible router request terms task p h =
      let taken : all (λ m. elem m p.modalities) request.routing.modalities ≡ true =
        all-of (λ m. elem m p.modalities) request.routing.modalities
          (λ m i. (elem_iff m p.modalities).1 (h.modal m i)) in
      let structured : (not request.routing.structured || p.supports_structured_output) ≡ true =
        elim (Bool-cases request.routing.structured) [
          | inl s ↦ rw (s, h.structured s)
          | inr s ↦ rw s
        ] in
      ground (
        arith,
        taken,
        structured,
        (elem_iff task p.supported_tasks).1 h.capable,
        privacy_beq_iff request.routing.privacy PrivacyClass.public,
        h.private_stays,
        h.agreed,
        h.healthy,
        h.fits_context,
        h.good_enough,
        h.leaves_engine,
        permits-Permitted terms.permitted_models p.id h.permitted,
      )

  -- `auto` names every model; any other name only the model of that id.
  abbrev pub IsNamed : ChatCompletionRequest F → ModelProfile F → Type 0
  IsNamed request p = (request.model ≡ "auto") ⊎ (p.id ≡ request.model)

  pub mem-candidates :
      (router : Router F) (request : ChatCompletionRequest F) (terms : Terms F) (task : TaskClass)
      (p : ModelProfile F)
      → p ∈ candidates router request terms task
      → (p ∈ router.profiles) × IsEligible router request terms task p × IsNamed request p
  unfolding candidates
  mem-candidates router request terms task p m = elim (Bool-cases (request.model == "auto")) [
    | inl auto ↦
        let (listed, good) = mem-filter test router.profiles p (rw (auto, if◌then◌else◌) at m) in
        (
          listed,
          eligible-IsEligible router request terms task p good,
          inl ((eq_iff request.model "auto").0 auto),
        )
    | inr other ↦
        let (kept, same) =
          mem-filter (named request) (filter test router.profiles) p
            (rw (other, if◌then◌else◌) at m) in
        let (listed, good) = mem-filter test router.profiles p kept in
        (
          listed,
          eligible-IsEligible router request terms task p good,
          inr ((eq_iff p.id request.model).0 same),
        )
  ]
    where
      test : ModelProfile F → Bool
      test = eligible router request terms task

  pub candidates-mem :
      (router : Router F) (request : ChatCompletionRequest F) (terms : Terms F) (task : TaskClass)
      (p : ModelProfile F)
      → p ∈ router.profiles
      → IsEligible router request terms task p
      → IsNamed request p
      → p ∈ candidates router request terms task
  unfolding candidates
  candidates-mem router request terms task p listed good names =
      elim (Bool-cases (request.model == "auto")) [
        | inl auto ↦ rw (auto, if◌then◌else◌) kept
        | inr other ↦
            rw (other, if◌then◌else◌)
              (filter-mem (named request) (filter test router.profiles) p kept
                (ground (arith, eq_iff p.id request.model, eq_iff request.model "auto", names)))
      ]
    where
      test : ModelProfile F → Bool
      test = eligible router request terms task

      kept : p ∈ filter test router.profiles
      kept =
          filter-mem test router.profiles p listed
            (IsEligible-eligible router request terms task p good)
