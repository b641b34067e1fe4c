-- ===== src/Admission/Quota.antt =====
-- `SlidingWindowQuota` of src/llm_router/admission.py and `RedisFixedWindowQuota` of
-- src/llm_router/redis_state.py, whose client's counters are a dictionary.
use production_local_llm_inf.Prelude.{
  ℕ, ◌+◌, Bool, true, false, Option, List, [], ◌∷◌, ◌++◌, String, length, leb, string_eq,
  if◌then◌else◌, concat,
}
use production_local_llm_inf.Prelude.Float.{Float}
use production_local_llm_inf.Prelude.Dict.{Dict, get, put}
use production_local_llm_inf.Models.{or_else}

pub record SlidingWindowQuota (F : Type 0) : Type 0 where
  pub limit : ℕ
  pub events : Dict String (List F)

-- A call of `consume`.
pub record Request (F : Type 0) : Type 0 where
  pub subject : String
  pub now : F
  pub own_limit : Option ℕ

-- `self._events[subject]` of a `defaultdict(deque)`.
abbrev pub events_of : {F : Type 0} → String → SlidingWindowQuota F → List F
events_of subject q = or_else (get subject q.events) []

module _ {F : Type 0} ⦃f : Float F⦄ where
  -- `while events and events[0] <= cutoff: events.popleft()`.
  unfoldable pub expire : F → List F → List F
  expire cutoff [] = []
  expire cutoff (e ∷ es) = let rest = expire cutoff es in if f.le e cutoff then rest else e ∷ es

  abbrev pub cutoff_of : F → F
  cutoff_of now = f.sub now (f.of_nat 60)

  -- The quota after the call, and whether the request is within it; the expired events are gone
  -- in either case.
  unfoldable pub consume : Request F → SlidingWindowQuota F → SlidingWindowQuota F × Bool
  unfolding expire
  consume r q =
      let kept = expire (cutoff_of r.now) (events_of r.subject q) in
      if leb (or_else r.own_limit q.limit) (length kept)
      then (record q { events = put r.subject kept q.events }, false)
      else (record q { events = put r.subject (kept ++ r.now ∷ []) q.events }, true)

-- `INCR` of a counter that may be missing.
unfoldable pub increment : String → Dict String ℕ → Dict String ℕ × ℕ
increment key counters =
    let count = or_else (get key counters) 0 + 1 in (put key count counters, count)

-- `RedisFixedWindowQuota.consume`; `show_nat` is what Python prints for the window.
unfoldable pub consume_window :
    (ℕ → String) → String → ℕ → String → ℕ → Option ℕ → Dict String ℕ → Dict String ℕ × Bool
unfolding increment
consume_window show_nat prefix limit subject window own_limit counters =
    let (after, count) =
      increment (concat prefix (concat subject (concat ":" (show_nat window)))) counters in
    (after, leb count (or_else own_limit limit))
