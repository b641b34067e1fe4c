-- ===== src/Canary/Arms.antt =====
-- `_Arm` of src/llm_router/canary.py: what one arm of a canary has served.
use production_local_llm_inf.Prelude.{
  ℕ, ◌+◌, ◌-◌, ◌*◌, ◌/◌, ◌≤◌, ◌≡◌, Bool, true, false, Option, none, some, List, [], ◌∷◌, ◌++◌,
  arith, ltb, nat_beq, length, get_elem?, get_elem?-total, count_if, is_empty, if◌then◌else◌,
  length-append,
}
use production_local_llm_inf.Prelude.Float.{Float, IsOrdered}
use production_local_llm_inf.Prelude.Sort.{
  sorted, length-sorted, count_if-sorted, sorted-IsSorted, rank-le-count,
}
use production_local_llm_inf.Canary.Evaluate.{CanaryObservation}

abbrev pub latency_window : ℕ
latency_window = 1000

pub record Arm (F : Type 0) : Type 0 where
  pub requests : ℕ
  pub errors : ℕ
  pub latencies : List F
  pub quality_total : F
  pub quality_samples : ℕ

-- `deque(maxlen=n).append(x)`: a full deque drops its first element.
abbrev drop_over {ℓ} : {A : Type ℓ} → ℕ → List A → List A
drop_over n [] = []
drop_over n (x ∷ xs) = if ltb n (length (x ∷ xs)) then xs else x ∷ xs

unfoldable pub append_within {ℓ} : {A : Type ℓ} → ℕ → List A → A → List A
append_within n xs x = drop_over n (xs ++ x ∷ [])

-- `max(0, -(-len * 95 // 100) - 1)`: the place of the 95th percentile by nearest rank.
abbrev p95_index : ℕ → ℕ
p95_index n = (n * 95 + 99) / 100 - 1

module _ {F : Type 0} ⦃f : Float F⦄ where
  unfoldable pub fresh_arm : Arm F
  fresh_arm = record {
    requests = 0;
    errors = 0;
    latencies = [];
    quality_total = f.of_nat 0;
    quality_samples = 0;
  }

  unfoldable pub count_quality : Arm F → Option F → Arm F
  count_quality arm none = arm
  count_quality arm (some quality) = record arm {
    quality_total = f.add arm.quality_total quality;
    quality_samples = arm.quality_samples + 1;
  }

  unfoldable pub record_arm : Arm F → Bool → F → Option F → Arm F
  unfolding count_quality append_within
  record_arm arm ok latency_ms quality =
      count_quality
        (record arm {
          requests = arm.requests + 1;
          errors = arm.errors + (if ok then 0 else 1);
          latencies = append_within latency_window arm.latencies latency_ms;
        })
        quality

  unfoldable pub p95 : List F → Option F
  unfolding sorted
  p95 latencies =
      if is_empty latencies
      then none
      else get_elem? (sorted latencies) (p95_index (length latencies))

  unfoldable pub observation : Arm F → CanaryObservation F
  unfolding p95
  observation arm = record {
    ready = true;
    requests = arm.requests;
    errors = arm.errors;
    p95_latency_ms = p95 arm.latencies;
    quality =
        if nat_beq arm.quality_samples 0
        then none
        else some (f.div arm.quality_total (f.of_nat arm.quality_samples));
  }

  pub record IsSound (arm : Arm F) : Type 0 where
    pub errors_le : arm.errors ≤ arm.requests
    pub samples_le : arm.quality_samples ≤ arm.requests
    pub window_le : length arm.latencies ≤ latency_window
    pub window_requests : length arm.latencies ≤ arm.requests

  length-drop_over : (n : ℕ) (xs : List F) → length xs ≤ n + 1 → length (drop_over n xs) ≤ n
  length-drop_over n [] h = omega arith
  length-drop_over n (x ∷ xs) h = ground arith

  length-drop_over-le : (n : ℕ) (xs : List F) → length (drop_over n xs) ≤ length xs
  length-drop_over-le n [] = omega arith
  length-drop_over-le n (x ∷ xs) = ground arith

  -- Recording an outcome keeps an arm sound: no more errors, quality samples or kept latencies than
  -- requests, and no more latencies than the window.
  pub record_arm-IsSound :
      (arm : Arm F) (ok : Bool) (latency : F) (quality : Option F)
      → IsSound arm
      → IsSound (record_arm arm ok latency quality)
  unfolding record_arm
  record_arm-IsSound arm ok latency quality s =
      let grown : List F = arm.latencies ++ latency ∷ [] in
      ground (
        arith,
        length-append arm.latencies (latency ∷ []),
        length-drop_over latency_window grown,
        length-drop_over-le latency_window grown,
      )

  p95-some :
      (latencies : List F)
      → is_empty latencies ≡ false
      → (v : F) × (get_elem? (sorted latencies) (p95_index (length latencies)) ≡ some v)
        × (p95 latencies ≡ some v)
  unfolding p95
  p95-some [] h = cc
  p95-some (x ∷ xs) h =
      let (v, e) =
        get_elem?-total (sorted (x ∷ xs)) (p95_index (length (x ∷ xs)))
          (omega (arith, length-sorted (x ∷ xs))) in
      (v, e, e)

  -- With any latency kept the percentile exists, the index never falls outside the list, and at
  -- least 95% of the latencies are not above it.
  pub p95_lem :
      (laws : IsOrdered F) (latencies : List F)
      → is_empty latencies ≡ false
      → (v : F) × (p95 latencies ≡ some v)
        × (length latencies * 95 ≤ count_if (λ x. f.le x v) latencies * 100)
  p95_lem laws latencies h =
      let (v, at, e) = p95-some latencies h in
      let ranked =
        rank-le-count laws (sorted latencies) (p95_index (length latencies))
          (sorted-IsSorted laws latencies) at in
      (v, e, omega (arith, ranked, count_if-sorted (λ x. f.le x v) latencies))
