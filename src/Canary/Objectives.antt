-- ===== src/Canary/Objectives.antt =====
-- The latency objectives of a policy, as `canary_plans` of src/llm_router/canary.py reads them.
use production_local_llm_inf.Prelude.{
  ◌≡◌, refl, true, List, [], ◌∷◌, map, mem-map, arith, is_some, all, inl, inr, ◌∈◌, Option-cases,
}
use production_local_llm_inf.Prelude.Dict.{Dict, get}
use production_local_llm_inf.Prelude.Keyed.{get-mem}
use production_local_llm_inf.Prelude.Float.{Float, max_from, max_from-holds}
use production_local_llm_inf.Prelude.Result.{ok, raise_if-ok, traverse, mem-traverse}
use production_local_llm_inf.Models.Enums.{ModelTier, tier_eq}
use production_local_llm_inf.Registry.Records.{ModelCard, RoutePolicy}
use production_local_llm_inf.Registry.Validate.{cover_every_tier_with_an_objective}
use production_local_llm_inf.Canary.Plans.{objective, strictest_default}

module _ {F : Type 0} ⦃f : Float F⦄ where
  -- Every latency objective of the policy is above 0.
  abbrev pub HasPositiveObjectives : RoutePolicy F → Type 0
  HasPositiveObjectives policy =
      (tier : ModelTier) (v : F)
      → (tier, v) ∈ policy.latency_objectives_ms
      → f.lt (f.of_nat 0) v ≡ true

  module _ (policy : RoutePolicy F)
      (covered : cover_every_tier_with_an_objective policy ≡ ok tt) where
    objective_covered : (tier : ModelTier) → is_some (get tier policy.latency_objectives_ms) ≡ true
    unfolding cover_every_tier_with_an_objective all
    objective_covered tier = ground (arith, raise_if-ok _ _ covered)

    pub objective_total : (card : ModelCard F) → (v : F) × (objective policy card ≡ ok v)
    unfolding objective
    objective_total card = elim (Option-cases (get card.tier policy.latency_objectives_ms)) [
      | inl missing ↦ absurd (ground (arith, objective_covered card.tier))
      | inr (v, found) ↦ (v, rw (found, objective))
    ]

    pub default_total :
        (d : Dict ModelTier F)
        → d ≡ policy.latency_objectives_ms
        → (v : F) × (strictest_default d ≡ ok v)
    unfolding strictest_default get
    default_total [] e = absurd (ground (arith, objective_covered ModelTier.general_local))
    default_total (x ∷ xs) e = (_, refl)

  module _ (policy : RoutePolicy F) (positive : HasPositiveObjectives policy) where
    objective-positive :
        (card : ModelCard F) {v : F} → objective policy card ≡ ok v → f.lt (f.of_nat 0) v ≡ true
    unfolding objective
    objective-positive card {v} h =
        elim (Option-cases (get card.tier policy.latency_objectives_ms)) [
          | inl missing ↦ absurd (ground (arith, rw (missing, objective) at h))
          | inr (w, found) ↦
              let same : w ≡ v = ground (arith, rw (found, objective) at h) in
              rw same at
                (positive card.tier w (get-mem card.tier policy.latency_objectives_ms found))
        ]

    pub objectives-positive :
        (cards : List (ModelCard F)) (vs : List F)
        → traverse (objective policy) cards ≡ ok vs
        → (v : F) → v ∈ vs
        → f.lt (f.of_nat 0) v ≡ true
    objectives-positive cards vs h v m =
        let (card, _, e) = mem-traverse (objective policy) cards h v m in objective-positive card e

  pub default-positive :
      (d : Dict ModelTier F) {v : F}
      → ((tier : ModelTier) (w : F) → (tier, w) ∈ d → f.lt (f.of_nat 0) w ≡ true)
      → strictest_default d ≡ ok v
      → f.lt (f.of_nat 0) v ≡ true
  unfolding strictest_default
  default-positive [] positive h = absurd (ground (arith, h))
  default-positive (x ∷ xs) {v} positive h =
      let same : max_from x.1 (map (λ e. e.1) xs) ≡ v = ground (arith, h) in
      rw same at (
        max_from-holds (λ v. f.lt (f.of_nat 0) v ≡ true) x.1 (map (λ e. e.1) xs)
          (positive x.0 x.1 (inl refl))
          (λ y m. let (w, k, q) = mem-map (λ e. e.1) xs y m in rw q (positive w.0 w.1 (inr k))))
