-- ===== src/Admission/Shared.antt =====
-- The quota that replicas share, `RedisFixedWindowQuota` of src/llm_router/redis_state.py, over a
-- history of calls. A counter is given two minutes to live at its first call, and calls under its key
-- come within the window's one, so no counter expires while it is used.
use production_local_llm_inf.Prelude.{
  ℕ, ◌+◌, ◌≡◌, refl, ap, ◌∙◌, Bool, Option, String, List, [], ◌∷◌, concat, count_if, leb, ◌==◌,
  string_eq, if◌then◌else◌, arith, Bool-cases, inl, inr,
}
use production_local_llm_inf.Prelude.Dict.{Dict, get, get-put}
use production_local_llm_inf.Models.{or_else}
use production_local_llm_inf.Admission.Quota.{increment, consume_window}

-- A call of `consume`.
pub record SharedCall : Type 0 where
  pub subject : String
  pub window : ℕ
  pub own_limit : Option ℕ

-- `INCR` moves the counter of its own key by one.
get-increment :
    (k j : String) (counters : Dict String ℕ)
    → or_else (get j (increment k counters).0) 0
      ≡ (if k == j then 1 else 0) + or_else (get j counters) 0
unfolding increment
get-increment k j counters = elim (Bool-cases (k == j)) [
  | inl e ↦
      rw (get-put k j (or_else (get k counters) 0 + 1) counters, e, (string_eq.beq_iff k j).0 e)
        (omega arith)
  | inr e ↦ rw (get-put k j (or_else (get k counters) 0 + 1) counters, e) (omega arith)
]

module _ (show_nat : ℕ → String) (prefix : String) (limit : ℕ) where
  abbrev pub key_of : SharedCall → String
  key_of c = concat prefix (concat c.subject (concat ":" (show_nat c.window)))

  abbrev pub call : SharedCall → Dict String ℕ → Dict String ℕ × Bool
  call c counters = consume_window show_nat prefix limit c.subject c.window c.own_limit counters

  -- The counters after a history, the newest call first.
  unfoldable pub counters_after : List SharedCall → Dict String ℕ
  counters_after [] = []
  counters_after (c ∷ cs) = (call c (counters_after cs)).0

  abbrev pub same_key : SharedCall → SharedCall → Bool
  same_key c d = key_of d == key_of c

  counter-counters_after :
      (c : SharedCall) (cs : List SharedCall)
      → or_else (get (key_of c) (counters_after cs)) 0 ≡ count_if (same_key c) cs
  unfolding counters_after consume_window get
  counter-counters_after c [] = refl
  counter-counters_after c (d ∷ cs) =
      get-increment (key_of d) (key_of c) (counters_after cs)
      ∙ ap (λ n. (if key_of d == key_of c then 1 else 0) + n) (counter-counters_after c cs)

  -- Whatever calls came before, admitted or not, a call is admitted exactly when it and those before it
  -- under its key, the subject and the window, are no more than its limit.
  pub consume_window-counters_after :
      (c : SharedCall) (cs : List SharedCall)
      → (call c (counters_after cs)).1
        ≡ leb (count_if (same_key c) cs + 1) (or_else c.own_limit limit)
  unfolding consume_window increment
  consume_window-counters_after c cs = rw (counter-counters_after c cs) refl
