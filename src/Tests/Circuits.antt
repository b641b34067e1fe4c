-- ===== src/Tests/Circuits.antt =====
-- The circuit breaker, the quota and the slots at concrete inputs.
use production_local_llm_inf.Prelude.{
  ℕ, ◌+◌, ◌<◌, ◌≡◌, ◌≢◌, ◌↔◌, refl, true, false, none, some, List, [], ◌∷◌, String, arith, ltb,
}
use production_local_llm_inf.Prelude.Int.{ℤ, pos}
use production_local_llm_inf.Prelude.Float.{milli_float, Milli-IsOrdered}
use production_local_llm_inf.Models.{or_else}
use production_local_llm_inf.Resilience.Breaker.{
  CircuitBreaker, CircuitState, new_breaker, state, allow,
}
use production_local_llm_inf.Resilience.Backend.{Outcome, unavailable, from_engine, generate}
use production_local_llm_inf.Resilience.Circuit.{
  Event, asks, abandons, fails, probed, succeeds, after, recent_failures, state-after,
}
use production_local_llm_inf.Resilience.Trial.{
  IsWaiting, IsEnd, verdict, allow-after, generate-trial,
}
use production_local_llm_inf.Admission.Quota.{Request, consume, cutoff_of}
use production_local_llm_inf.Admission.Window.{recent}
use production_local_llm_inf.Admission.History.{run, times, IsInOrder, consume-run}
use production_local_llm_inf.Admission.Shared.{
  SharedCall, call, counters_after, same_key, consume_window-counters_after,
}
use production_local_llm_inf.Prelude.{String, leb, count_if}
use production_local_llm_inf.Admission.Slots.{AdmissionController}

abbrev history : List (Event ℤ)
history = asks (pos 9000) ∷ fails (pos 8000) ∷ probed ∷ fails (pos 7000) ∷ succeeds ∷ []

state-after_example :
    (state (pos 9000) (after (new_breaker 2 (pos 30000)) history) ≡ CircuitState.closed)
    ↔ (recent_failures history < 2)
state-after_example = state-after 2 (pos 30000) (omega arith) history (pos 9000)

abbrev waiting_for_trial : CircuitBreaker ℤ
waiting_for_trial = record {
  failure_threshold = 2;
  cooldown_seconds = pos 30000;
  failures = 2;
  opened_at = some (pos 0);
  trial_in_flight = true;
  half_open = false;
}

allow-after_example :
    ((allow (pos 50000) (after waiting_for_trial (asks (pos 40000) ∷ probed ∷ []))).1 ≡ false)
    × (((allow (pos 50000) (after waiting_for_trial (abandons ∷ asks (pos 40000) ∷ probed ∷ []))).1
          ≡ true)
        ↔ (state (pos 50000) (after waiting_for_trial (abandons ∷ asks (pos 40000) ∷ probed ∷ []))
            ≢ CircuitState.opened))
unfolding IsWaiting IsEnd
allow-after_example =
    allow-after waiting_for_trial (asks (pos 40000) ∷ probed ∷ []) abandons (pos 50000) (λ e. cc)
      refl tt tt

abbrev half_open_breaker : CircuitBreaker ℤ
half_open_breaker = record waiting_for_trial { trial_in_flight = false }

abbrev failing : Outcome String
failing = unavailable

generate-trial_example :
    ((generate (pos 31000) (pos 32000) failing half_open_breaker).1 ≡ from_engine failing)
    × (state (pos 33000) (generate (pos 31000) (pos 32000) failing half_open_breaker).0
        ≡ verdict failing (pos 32000) (pos 33000) half_open_breaker)
    × ((generate (pos 31000) (pos 32000) failing half_open_breaker).0.trial_in_flight ≡ false)
unfolding state
generate-trial_example =
    generate-trial (pos 31000) (pos 32000) (pos 33000) failing half_open_breaker refl refl

abbrev ask : ℕ → Request ℤ
ask t = record { subject = "acme"; now = pos t; own_limit = none }

cutoff_mono_milli :
    (x y : ℤ) → milli_float.le x y ≡ true → milli_float.le (cutoff_of x) (cutoff_of y) ≡ true
cutoff_mono_milli x y h = ground arith

consume-run_example :
    (consume (ask 70000) (run 2 (ask 30000 ∷ ask 20000 ∷ ask 0 ∷ [])).0).1
    ≡ ltb
        (recent
          (cutoff_of (pos 70000))
          (times "acme" (run 2 (ask 30000 ∷ ask 20000 ∷ ask 0 ∷ [])).1))
        (or_else none 2)
unfolding IsInOrder
consume-run_example =
    consume-run Milli-IsOrdered cutoff_mono_milli 2 (ask 70000) (ask 30000 ∷ ask 20000 ∷ ask 0 ∷ [])
      (refl, (refl, (refl, tt)))

abbrev shared_call : SharedCall
shared_call = record { subject = "acme"; window = 7; own_limit = none }

abbrev print_window : ℕ → String
print_window n = "7"

consume_window-counters_after_example :
    (call print_window "llmr:q:" 2 shared_call
      (counters_after print_window "llmr:q:" 2 (shared_call ∷ shared_call ∷ []))).1
    ≡ leb
        (count_if (same_key print_window "llmr:q:" 2 shared_call) (shared_call ∷ shared_call ∷ [])
          + 1)
        (or_else none 2)
consume_window-counters_after_example =
    consume_window-counters_after print_window "llmr:q:" 2 shared_call
      (shared_call ∷ shared_call ∷ [])

abbrev one_taken : AdmissionController
one_taken = record { permits = 1; in_flight = 1; idle = false }
