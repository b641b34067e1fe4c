-- ===== src/Canary/Verdicts.antt =====
-- When `evaluate` rolls back, promotes and holds.
use production_local_llm_inf.Prelude.{
  ◌≤◌, ◌<◌, ◌≡◌, ◌↔◌, ◌⊎◌, inl, inr, refl, true, false, Option, none, some, List, [], ◌∷◌, arith,
  ◌≢◌,
}
use production_local_llm_inf.Prelude.Float.{Float, IsOrdered}
use production_local_llm_inf.Canary.Evaluate.{
  CanaryAction, CanaryCriteria, CanaryObservation, Reason, error_rate, control_of, rate_is_own,
  error_reasons, latency_is_own, latency_reasons, quality_reasons, rollback_reasons, decide_on,
  evaluate,
}

module _ {F : Type 0} ⦃f : Float F⦄ where
  -- A baseline that served enough requests to be judged, where there is one, errs less often, or
  -- answers faster where its latency was measured.
  abbrev ErrsMoreThan : CanaryCriteria F → F → Option (CanaryObservation F) → Type 0
  ErrsMoreThan c rate none = Unit
  ErrsMoreThan c rate (some b) = (b.requests < c.min_sample) ⊎ (f.lt (error_rate b) rate ≡ true)

  abbrev SlowerThanMeasured : F → Option F → Type 0
  SlowerThanMeasured latency none = Unit
  SlowerThanMeasured latency (some other) = f.lt other latency ≡ true

  abbrev SlowerThan : CanaryCriteria F → F → Option (CanaryObservation F) → Type 0
  SlowerThan c latency none = Unit
  SlowerThan c latency (some b) =
      (b.requests < c.min_sample) ⊎ SlowerThanMeasured latency b.p95_latency_ms

  enough_or_few :
      (c : CanaryCriteria F) (b : CanaryObservation F)
      → (c.min_sample ≤ b.requests) ⊎ (b.requests < c.min_sample)
  enough_or_few c b = ground arith

  control_of-none : (c : CanaryCriteria F) → control_of c none ≡ none
  unfolding control_of
  control_of-none c = refl

  control_of_enough :
      (c : CanaryCriteria F) (b : CanaryObservation F)
      → c.min_sample ≤ b.requests
      → control_of c (some b) ≡ some b
  unfolding control_of
  control_of_enough c b h = ground arith

  control_of_few :
      (c : CanaryCriteria F) (b : CanaryObservation F)
      → b.requests < c.min_sample
      → control_of c (some b) ≡ none
  unfolding control_of
  control_of_few c b h = ground arith

  rate_is_own_iff :
      (c : CanaryCriteria F) (rate : F) (baseline : Option (CanaryObservation F))
      → (rate_is_own rate (control_of c baseline) ≡ true) ↔ ErrsMoreThan c rate baseline
  unfolding rate_is_own
  rate_is_own_iff c rate none = rw (control_of-none c) ((λ _. tt), (λ _. refl))
  rate_is_own_iff c rate (some b) = elim (enough_or_few c b) [
    | inl enough ↦ rw (control_of_enough c b enough) (ground arith)
    | inr few ↦ rw (control_of_few c b few) (ground arith)
  ]

  latency_is_own_iff :
      (c : CanaryCriteria F) (latency : F) (baseline : Option (CanaryObservation F))
      → (latency_is_own latency (control_of c baseline) ≡ true) ↔ SlowerThan c latency baseline
  unfolding latency_is_own
  latency_is_own_iff c latency none = rw (control_of-none c) ((λ _. tt), (λ _. refl))
  latency_is_own_iff c latency (some b) = elim (enough_or_few c b) [
    | inl enough ↦
        rw (control_of_enough c b enough)
          (let same = measured b.p95_latency_ms refl in ground (arith, same))
    | inr few ↦ rw (control_of_few c b few) (ground arith)
  ]
    where
      measured :
          (o : Option F)
          → b.p95_latency_ms ≡ o
          → (latency_is_own latency (some b) ≡ true) ↔ SlowerThanMeasured latency b.p95_latency_ms
      measured none e = rw e ((λ _. tt), (λ _. refl))
      measured (some other) e = rw e ((λ h. h), (λ h. h))

  -- The canary breaks its error budget, and a baseline of sufficient sample errs less often.
  abbrev pub ErrsAlone :
      CanaryCriteria F → CanaryObservation F → Option (CanaryObservation F) → Type 0
  ErrsAlone c o baseline =
      (f.lt c.max_error_rate (error_rate o) ≡ true) × ErrsMoreThan c (error_rate o) baseline

  abbrev LagsBy : CanaryCriteria F → Option F → Option (CanaryObservation F) → Type 0
  LagsBy c none baseline = ⊥
  LagsBy c (some latency) baseline =
      (f.lt c.max_p95_latency_ms latency ≡ true) × SlowerThan c latency baseline

  abbrev pub PoorBy : CanaryCriteria F → Option F → Type 0
  PoorBy c none = ⊥
  PoorBy c (some quality) = f.lt quality c.min_quality ≡ true

  -- The canary fails a criterion by a fault of its own.
  abbrev pub IsAtFault :
      CanaryCriteria F → CanaryObservation F → Option (CanaryObservation F) → Type 0
  IsAtFault c o baseline =
      ErrsAlone c o baseline ⊎ (LagsBy c o.p95_latency_ms baseline ⊎ PoorBy c o.quality)

  latency_reasons_iff :
      (c : CanaryCriteria F) (o : Option F) (baseline : Option (CanaryObservation F))
      → (latency_reasons c o (control_of c baseline) ≢ []) ↔ LagsBy c o baseline
  unfolding latency_reasons
  latency_reasons_iff c none baseline = ground arith
  latency_reasons_iff c (some l) baseline = ground (arith, latency_is_own_iff c l baseline)

  quality_reasons_iff :
      (c : CanaryCriteria F) (o : Option F) → (quality_reasons c o ≢ []) ↔ PoorBy c o
  unfolding quality_reasons
  quality_reasons_iff c none = ground arith
  quality_reasons_iff c (some q) = ground arith

  rollback_reasons_iff :
      (c : CanaryCriteria F) (o : CanaryObservation F) (baseline : Option (CanaryObservation F))
      → (rollback_reasons c o (control_of c baseline) ≢ [])
        ↔ ((c.min_sample ≤ o.requests) × IsAtFault c o baseline)
  unfolding rollback_reasons error_reasons
  rollback_reasons_iff c o baseline = ground (
    arith,
    latency_reasons_iff c o.p95_latency_ms baseline,
    quality_reasons_iff c o.quality,
    rate_is_own_iff c (error_rate o) baseline,
  )

  -- A verdict is a rollback exactly when the readiness probe failed, or the canary has served
  -- enough requests to be judged and is at fault: its error rate is above the limit and above that
  -- of the baseline, or so with its p95 latency, or its quality is below the floor. A baseline that
  -- is missing, that served fewer requests than the sample, or, for latency, that was not measured,
  -- excuses nothing: the limit alone decides then.
  pub evaluate-rollback :
      (c : CanaryCriteria F) (o : CanaryObservation F) (baseline : Option (CanaryObservation F))
      → ((evaluate c o baseline).action ≡ CanaryAction.rollback)
        ↔ ((o.ready ≡ false) ⊎ ((c.min_sample ≤ o.requests) × IsAtFault c o baseline))
  unfolding evaluate decide_on
  evaluate-rollback c o baseline = split (rollback_reasons c o (control_of c baseline)) refl
    where
      split :
          (rs : List (Reason F))
          → rollback_reasons c o (control_of c baseline) ≡ rs
          → ((evaluate c o baseline).action ≡ CanaryAction.rollback)
            ↔ ((o.ready ≡ false) ⊎ ((c.min_sample ≤ o.requests) × IsAtFault c o baseline))
      split [] e = ground (arith, rollback_reasons_iff c o baseline)
      split (r ∷ rs) e = ground (arith, rollback_reasons_iff c o baseline)

  -- A canary is ready to promote exactly when its probe is healthy, it has served the requests that
  -- its plan asks for, and it is not at fault on a sufficient sample.
  pub evaluate-promote :
      (c : CanaryCriteria F) (o : CanaryObservation F) (baseline : Option (CanaryObservation F))
      → ((evaluate c o baseline).action ≡ CanaryAction.promote) ↔ (
          (o.ready ≡ true)
          × (c.min_requests ≤ o.requests)
          × (¬ ((c.min_sample ≤ o.requests) × IsAtFault c o baseline)))
  unfolding evaluate decide_on
  evaluate-promote c o baseline = split (rollback_reasons c o (control_of c baseline)) refl
    where
      split :
          (rs : List (Reason F))
          → rollback_reasons c o (control_of c baseline) ≡ rs
          → ((evaluate c o baseline).action ≡ CanaryAction.promote) ↔ (
              (o.ready ≡ true)
              × (c.min_requests ≤ o.requests)
              × (¬ ((c.min_sample ≤ o.requests) × IsAtFault c o baseline)))
      split [] e = ground (arith, rollback_reasons_iff c o baseline)
      split (r ∷ rs) e = ground (arith, rollback_reasons_iff c o baseline)

  not_lagging :
      (laws : IsOrdered F) (c : CanaryCriteria F) (b : CanaryObservation F) (o m : Option F)
      {lo lb : F}
      → o ≡ some lo
      → m ≡ some lb
      → f.le lo lb ≡ true
      → b.p95_latency_ms ≡ m
      → c.min_sample ≤ b.requests
      → ¬ LagsBy c o (some b)
  not_lagging laws c b none m p q l e enough h = h
  not_lagging laws c b (some l) none p q lags e enough h = cc
  not_lagging laws c b (some l) (some k) p q lags e enough (_, inl few) = omega arith
  not_lagging laws c b (some l) (some k) {lo} {lb} p q lags e enough (_, inr late) =
      let slower : f.lt k l ≡ true = rw e at late in ground (arith, laws.lt-eq-not-le lb lo)

  no_fault_of_its_own :
      (laws : IsOrdered F) (c : CanaryCriteria F) (o b : CanaryObservation F) {lo lb : F}
      → f.le (error_rate o) (error_rate b) ≡ true
      → o.p95_latency_ms ≡ some lo
      → b.p95_latency_ms ≡ some lb
      → f.le lo lb ≡ true
      → (¬ PoorBy c o.quality)
      → c.min_sample ≤ b.requests
      → ¬ IsAtFault c o (some b)
  no_fault_of_its_own laws c o b rates slow_o slow_b lags fine enough (inl (_, inl few)) =
      omega arith
  no_fault_of_its_own laws c o b rates slow_o slow_b lags fine enough (inl (_, inr errs)) =
      ground (arith, laws.lt-eq-not-le (error_rate b) (error_rate o))
  no_fault_of_its_own laws c o b rates slow_o slow_b lags fine enough (inr (inl late)) =
      not_lagging laws c b o.p95_latency_ms b.p95_latency_ms slow_o slow_b lags refl enough late
  no_fault_of_its_own laws c o b rates slow_o slow_b lags fine enough (inr (inr poor)) = fine poor

  -- A problem that both arms share does not roll the canary back: with a baseline of sufficient
  -- sample that errs at least as often and is at least as slow, a ready canary whose quality is not
  -- below the floor is held or promoted.
  pub evaluate_shared_fault :
      (laws : IsOrdered F) (c : CanaryCriteria F) (o b : CanaryObservation F) {lo lb : F}
      → o.ready ≡ true
      → c.min_sample ≤ b.requests
      → f.le (error_rate o) (error_rate b) ≡ true
      → o.p95_latency_ms ≡ some lo
      → b.p95_latency_ms ≡ some lb
      → f.le lo lb ≡ true
      → (¬ PoorBy c o.quality)
      → (evaluate c o (some b)).action ≢ CanaryAction.rollback
  evaluate_shared_fault laws c o b ready enough rates slow_o slow_b lags fine h =
      elim ((evaluate-rollback c o (some b)).0 h) [
        | inl unready ↦ cc
        | inr (_, fault) ↦ no_fault_of_its_own laws c o b rates slow_o slow_b lags fine enough fault
      ]
