-- ===== src/Canary/Suspension.antt =====
-- A suspended canary stays suspended, and traffic follows the plan's share until then.
use production_local_llm_inf.Prelude.{
  ℕ, ◌≡◌, inl, inr, refl, Bool, true, false, not, Option, none, some, List, [], ◌∷◌, String, arith,
  is_some, ◌||◌, if◌then◌else◌, string_eq, Bool-cases, ◌∙◌,
}
use production_local_llm_inf.Prelude.Dict.{get, get-put, get-put_self}
use production_local_llm_inf.Prelude.Float.{Float}
use production_local_llm_inf.Canary.Evaluate.{CanaryPlan, CanaryDecision}
use production_local_llm_inf.Canary.Monitor.{
  CanaryMonitor, is_rollback, takes, update_arm, suspend, judge, conclude, record_planned,
  record_outcome,
}

-- One call of `record`.
pub record Outcome (F : Type 0) : Type 0 where
  pub subject : String
  pub on_canary : Bool
  pub succeeded : Bool
  pub latency_ms : F
  pub quality : Option F

module _ {F : Type 0} ⦃f : Float F⦄ where
  abbrev pub step : CanaryMonitor F → Outcome F → CanaryMonitor F
  step m o = (record_outcome m o.subject o.on_canary o.succeeded o.latency_ms o.quality).0

  -- The calls that a gateway makes, in order.
  unfoldable pub run : CanaryMonitor F → List (Outcome F) → CanaryMonitor F
  run m [] = m
  run m (o ∷ os) = run (step m o) os

  plans-update_arm :
      (m : CanaryMonitor F) (s : String) (c k : Bool) (l : F) (q : Option F)
      → ((update_arm m s c k l q).plans ≡ m.plans)
        × ((update_arm m s c k l q).rolled_back ≡ m.rolled_back)
  unfolding update_arm
  plans-update_arm m s true k l q = (refl, refl)
  plans-update_arm m s false k l q = (refl, refl)

  plans-suspend :
      (m : CanaryMonitor F) (s : String) (d : CanaryDecision F) → (suspend m s d).plans ≡ m.plans
  unfolding suspend
  plans-suspend m s d = ground arith

  plans-conclude :
      (m : CanaryMonitor F) (s : String) (skipped : Bool) (plan : CanaryPlan F)
      → (conclude m s skipped plan).0.plans ≡ m.plans
  unfolding conclude
  plans-conclude m s true plan = refl
  plans-conclude m s false plan = plans-suspend m s (judge m s plan)

  plans-record_planned :
      (found : Option (CanaryPlan F)) (m : CanaryMonitor F) (s : String) (c k : Bool) (l : F)
      (q : Option F)
      → (record_planned found m s c k l q).0.plans ≡ m.plans
  unfolding record_planned
  plans-record_planned none m s c k l q = refl
  plans-record_planned (some plan) m s c k l q =
      plans-conclude (update_arm m s c k l q) s (not c || is_some (get s m.rolled_back)) plan
      ∙ (plans-update_arm m s c k l q).0

  plans-step : (m : CanaryMonitor F) (o : Outcome F) → (step m o).plans ≡ m.plans
  unfolding record_outcome
  plans-step m o =
      plans-record_planned (get o.subject m.plans) m o.subject o.on_canary o.succeeded o.latency_ms
        o.quality

  pub plans-run : (m : CanaryMonitor F) (os : List (Outcome F)) → (run m os).plans ≡ m.plans
  unfolding run
  plans-run m [] = refl
  plans-run m (o ∷ os) = ground (arith, plans-run (step m o) os, plans-step m o)

  suspended-suspend :
      (m : CanaryMonitor F) (s j : String) (d : CanaryDecision F)
      → is_some (get j m.rolled_back) ≡ true
      → is_some (get j (suspend m s d).rolled_back) ≡ true
  unfolding suspend
  suspended-suspend m s j d h = ground (arith, get-put s j d.reasons m.rolled_back)

  suspended-conclude :
      (m : CanaryMonitor F) (s j : String) (skipped : Bool) (plan : CanaryPlan F)
      → is_some (get j m.rolled_back) ≡ true
      → is_some (get j (conclude m s skipped plan).0.rolled_back) ≡ true
  unfolding conclude
  suspended-conclude m s j true plan h = h
  suspended-conclude m s j false plan h = suspended-suspend m s j (judge m s plan) h

  suspended-record_planned :
      (found : Option (CanaryPlan F)) (m : CanaryMonitor F) (s j : String) (c k : Bool) (l : F)
      (q : Option F)
      → is_some (get j m.rolled_back) ≡ true
      → is_some (get j (record_planned found m s c k l q).0.rolled_back) ≡ true
  unfolding record_planned
  suspended-record_planned none m s j c k l q h = h
  suspended-record_planned (some plan) m s j c k l q h =
      suspended-conclude (update_arm m s c k l q) s j (not c || is_some (get s m.rolled_back)) plan
        (rw (plans-update_arm m s c k l q).1 h)

  suspended-step :
      (m : CanaryMonitor F) (o : Outcome F) (s : String)
      → is_some (get s m.rolled_back) ≡ true
      → is_some (get s (step m o).rolled_back) ≡ true
  unfolding record_outcome
  suspended-step m o s h =
      suspended-record_planned (get o.subject m.plans) m o.subject s o.on_canary o.succeeded
        o.latency_ms o.quality h

  suspended-run :
      (m : CanaryMonitor F) (os : List (Outcome F)) (s : String)
      → is_some (get s m.rolled_back) ≡ true
      → is_some (get s (run m os).rolled_back) ≡ true
  unfolding run
  suspended-run m [] s h = h
  suspended-run m (o ∷ os) s h = suspended-run (step m o) os s (suspended-step m o s h)

  -- Once an adapter has been rolled back no request is served by its canary again, whatever
  -- outcomes are recorded afterwards, its own or another's.
  pub takes-run_suspended :
      (digest : String → ℕ) (m : CanaryMonitor F) (os : List (Outcome F)) (s key : String)
      → is_some (get s m.rolled_back) ≡ true
      → takes digest (run m os) s key ≡ false
  unfolding takes
  takes-run_suspended digest m os s key h = ground (arith, suspended-run m os s h)

  -- Until its adapter is rolled back a request keeps its arm: the outcomes recorded in between,
  -- which left the adapter unsuspended, do not move it.
  pub takes-run_same_arm :
      (digest : String → ℕ) (m : CanaryMonitor F) (os : List (Outcome F)) (s key : String)
      → is_some (get s (run m os).rolled_back) ≡ false
      → takes digest (run m os) s key ≡ takes digest m s key
  unfolding takes
  takes-run_same_arm digest m os s key h = elim (Bool-cases (is_some (get s m.rolled_back))) [
    | inl before ↦ absurd (ground (arith, suspended-run m os s before))
    | inr free ↦ ground (arith, plans-run m os)
  ]

  -- The request that fails a canary suspends it: after an outcome of the canary arm of a planned
  -- adapter that was not suspended, the adapter is suspended exactly when the verdict returned is a
  -- rollback, and the reasons kept are the verdict's.
  pub record_outcome-suspends :
      (m : CanaryMonitor F) (s : String) (ok_ : Bool) (latency : F) (quality : Option F)
      {plan : CanaryPlan F}
      → get s m.plans ≡ some plan
      → get s m.rolled_back ≡ none
      → (d : CanaryDecision F) × ((record_outcome m s true ok_ latency quality).1 ≡ some d)
        × (get s (record_outcome m s true ok_ latency quality).0.rolled_back
            ≡ (if is_rollback d.action then some d.reasons else none))
  unfolding record_outcome conclude suspend
  record_outcome-suspends m s ok_ latency quality {plan} planned free =
      let m' : CanaryMonitor F = update_arm m s true ok_ latency quality in
      let d : CanaryDecision F = judge m' s plan in
      let same = (plans-update_arm m s true ok_ latency quality).1 in
      (
        d,
        rw (planned, record_planned, free),
        rw (planned, record_planned, free)
            (ground (arith, same, free, get-put_self s d.reasons m'.rolled_back)),
      )
