-- ===== src/Admission/Slots.antt =====
-- `AdmissionController` of src/llm_router/admission.py. How long a caller waits is not modelled: a
-- wait ends with a permit where one is there, or with the time-out.
use production_local_llm_inf.Prelude.{
  ℕ, ◌+◌, ◌-◌, ◌<◌, ◌≡◌, ◌↔◌, refl, Bool, true, false, ltb, nat_beq, if◌then◌else◌, arith,
}
use production_local_llm_inf.Prelude.Result.{Result, ok, raise, ◌>>=◌}

pub data AdmissionRejected : Type 0 where
  admission_rejected : AdmissionRejected

pub record AdmissionController : Type 0 where
  pub permits : ℕ
  pub in_flight : ℕ
  pub idle : Bool

unfoldable pub new_controller : ℕ → AdmissionController
new_controller max_concurrency = record { permits = max_concurrency; in_flight = 0; idle = true }

-- The semaphore gives a permit, or the wait runs out.
unfoldable pub acquire : AdmissionController → Result AdmissionRejected AdmissionController
acquire c =
    if ltb 0 c.permits
    then ok (record { permits = c.permits - 1; in_flight = c.in_flight + 1; idle = false })
    else raise admission_rejected

-- Called once for each slot taken, so `in_flight` is positive.
unfoldable pub release : AdmissionController → AdmissionController
release c = record {
  permits = c.permits + 1;
  in_flight = c.in_flight - 1;
  idle = if nat_beq (c.in_flight - 1) 0 then true else c.idle;
}

-- `slot`: the body runs in a slot, and the slot is free again whether it returned or raised.
unfoldable pub slot :
    {E A : Type 0}
    → (AdmissionController → AdmissionController × Result E A)
    → AdmissionController
    → Result AdmissionRejected (AdmissionController × Result E A)
unfolding acquire release
slot body c = acquire c >>= λ held. let (after, result) = body held in ok (release after, result)

-- What callers do to a controller: take a slot, or give back one that is held.
pub data Reachable (max_concurrency : ℕ) : AdmissionController → Type 0 where
  started : Reachable max_concurrency (new_controller max_concurrency)
  acquired :
      (c d : AdmissionController)
      → Reachable max_concurrency c
      → acquire c ≡ ok d
      → Reachable max_concurrency d
  released :
      (c : AdmissionController)
      → Reachable max_concurrency c
      → 0 < c.in_flight
      → Reachable max_concurrency (release c)

-- In every state that callers can reach, the permits and the requests in flight make up the
-- configured concurrency, so no more than that are ever in flight; and the idle event is set
-- exactly when none is, which is what `drain` waits for.
pub Reachable-bound :
    (max_concurrency : ℕ) (c : AdmissionController)
    → Reachable max_concurrency c
    → (c.permits + c.in_flight ≡ max_concurrency) × ((c.idle ≡ true) ↔ (c.in_flight ≡ 0))
unfolding new_controller acquire release
Reachable-bound max_concurrency c started = (omega arith, (λ e. refl, λ e. refl))
Reachable-bound max_concurrency _ (acquired c d r e) =
    let h = Reachable-bound max_concurrency c r in ground (arith, h, e)
Reachable-bound max_concurrency _ (released c r positive) =
    let h = Reachable-bound max_concurrency c r in ground (arith, h, positive)
