-- ===== src/Admission/History.antt =====
-- The quota over a whole history of calls, for all subjects at once.
use production_local_llm_inf.Prelude.{
  ℕ, ◌≡◌, refl, sym, ◌∙◌, Bool, true, false, some, List, [], ◌∷◌, ◌++◌, String, length, leb, ltb,
  ◌==◌, string_eq, if◌then◌else◌, arith, Bool-cases, inl, inr,
}
use production_local_llm_inf.Prelude.Float.{Float, IsOrdered}
use production_local_llm_inf.Prelude.Dict.{get, put, get-put}
use production_local_llm_inf.Models.{or_else}
use production_local_llm_inf.Admission.Quota.{
  SlidingWindowQuota, Request, events_of, expire, cutoff_of, consume,
}
use production_local_llm_inf.Admission.Window.{
  recent, IsRising, IsUpTo, expire-IsRising, recent-expire, length-expire, recent-append,
  append-IsRising, IsUpTo-later, expire-IsUpTo, append-IsUpTo,
}

module _ {F : Type 0} ⦃f : Float F⦄ where
  unfoldable pub new_quota : ℕ → SlidingWindowQuota F
  new_quota limit = record { limit = limit; events = [] }

  -- The quota after the calls, newest first, and the admitted requests.
  unfoldable pub run : ℕ → List (Request F) → SlidingWindowQuota F × List (Request F)
  unfolding consume new_quota
  run limit [] = (new_quota limit, [])
  run limit (r ∷ rs) =
      let (q, log) = run limit rs in
      let (after, admitted) = consume r q in (after, if admitted then r ∷ log else log)

  -- When the subject's requests were admitted.
  unfoldable pub times : String → List (Request F) → List F
  times subject [] = []
  times subject (r ∷ log) =
      let rest = times subject log in if r.subject == subject then r.now ∷ rest else rest

  -- The calls were made in order, none after `now`.
  unfoldable pub IsInOrder : F → List (Request F) → Type 0
  IsInOrder now [] = Unit
  IsInOrder now (r ∷ rs) = (f.le r.now now ≡ true) × IsInOrder r.now rs

  -- A subject's events keep the count of its admitted requests after any cutoff from now on.
  record Follows (now : F) (ts es : List F) : Type 0 where
    rising : IsRising es
    up_to : IsUpTo now es
    counted : (c : F) → f.le (cutoff_of now) c ≡ true → recent c ts ≡ recent c es

  record Tracks (limit : ℕ) (now : F) (q : SlidingWindowQuota F) (log : List (Request F))
      : Type 0 where
    same_limit : q.limit ≡ limit
    follows : (subject : String) → Follows now (times subject log) (events_of subject q)

  events_of-put :
      (subject key : String) (es : List F) (q : SlidingWindowQuota F)
      → events_of subject (record q { events = put key es q.events })
        ≡ (if key == subject then es else events_of subject q)
  events_of-put subject key es q = rw (get-put key subject es q.events) (split (key == subject))
    where
      split :
          (b : Bool)
          → or_else (if b then some es else get subject q.events) []
            ≡ (if b then es else events_of subject q)
      split true = refl
      split false = refl

  module _ (laws : IsOrdered F)
      (cutoff_mono : (x y : F) → f.le x y ≡ true → f.le (cutoff_of x) (cutoff_of y) ≡ true)
      (limit : ℕ) where
    Follows-later :
        (t now : F) (ts es : List F) → f.le t now ≡ true → Follows t ts es → Follows now ts es
    Follows-later t now ts es h k = record {
      rising = k.rising;
      up_to = IsUpTo-later laws t now es h k.up_to;
      counted = λ c g.
          k.counted c (laws.le_trans (cutoff_of t) (cutoff_of now) c (cutoff_mono t now h) g);
    }

    expire-Follows :
        (now : F) (ts es : List F) → Follows now ts es → Follows now ts (expire (cutoff_of now) es)
    expire-Follows now ts es k = record {
      rising = expire-IsRising (cutoff_of now) es k.rising;
      up_to = expire-IsUpTo (cutoff_of now) now es k.up_to;
      counted = λ c g. k.counted c g ∙ sym (recent-expire laws (cutoff_of now) c es g);
    }

    append-Follows :
        (now : F) (ts es : List F) → Follows now ts es → Follows now (now ∷ ts) (es ++ now ∷ [])
    append-Follows now ts es k = record {
      rising = append-IsRising now es k.rising k.up_to;
      up_to = append-IsUpTo laws now es k.up_to;
      counted = λ c g. ground (arith, k.counted c g, recent-append c es (now ∷ []));
    }

    -- The subject's events become `es`, the log `log`.
    Tracks-put :
        (now : F) (key : String) (q : SlidingWindowQuota F) (old log : List (Request F))
        (es : List F)
        → Tracks limit now q old
        → Follows now (times key log) es
        → ((s : String) → (key == s) ≡ false → times s log ≡ times s old)
        → Tracks limit now (record q { events = put key es q.events }) log
    Tracks-put now key q old log es k new others = record {
      same_limit = k.same_limit;
      follows = λ s. rw (events_of-put s key es q) (at_subject s);
    }
      where
        at_subject :
            (s : String) → Follows now (times s log) (if key == s then es else events_of s q)
        at_subject s = elim (Bool-cases (key == s)) [
          | inl same ↦ rw (same, if◌then◌else◌, sym ((string_eq.beq_iff key s).0 same)) new
          | inr other ↦ rw (other, if◌then◌else◌, others s other) (k.follows s)
        ]

    consume-Tracks :
        (r : Request F) (q : SlidingWindowQuota F) (log : List (Request F))
        → Tracks limit r.now q log
        → Tracks limit r.now (consume r q).0 (if (consume r q).1 then r ∷ log else log)
    unfolding consume times
    consume-Tracks r q log k = elim (Bool-cases (leb (or_else r.own_limit q.limit) (length kept))) [
      | inl full ↦
          rw (full, if◌then◌else◌)
            (Tracks-put r.now r.subject q log log kept k follows (λ s e. refl))
      | inr free ↦
          rw (free, if◌then◌else◌)
            (Tracks-put r.now r.subject q log (r ∷ log) (kept ++ r.now ∷ []) k
              (rw (itself, if◌then◌else◌) (append-Follows r.now (times r.subject log) kept follows))
              (λ s e. rw (e, if◌then◌else◌) refl))
    ]
      where
        kept : List F
        kept = expire (cutoff_of r.now) (events_of r.subject q)

        follows : Follows r.now (times r.subject log) kept
        follows =
            expire-Follows r.now (times r.subject log) (events_of r.subject q) (k.follows r.subject)

        itself : (r.subject == r.subject) ≡ true
        itself = (string_eq.beq_iff r.subject r.subject).1 refl

    run-Tracks :
        (now : F) (rs : List (Request F))
        → IsInOrder now rs
        → Tracks limit now (run limit rs).0 (run limit rs).1
    unfolding run IsInOrder new_quota IsRising times get
    run-Tracks now [] o = record {
      same_limit = refl;
      follows = λ s. record { rising = tt; up_to = tt; counted = λ c g. refl };
    }
    run-Tracks now (r ∷ rs) o =
        let done = consume-Tracks r (run limit rs).0 (run limit rs).1 (run-Tracks r.now rs o.1) in
        record {
          same_limit = done.same_limit;
          follows = λ s. Follows-later r.now now _ _ o.0 (done.follows s);
        }

    -- Over calls in order of time, a request is admitted exactly when fewer of its subject's
    -- requests than its limit were admitted in the minute before it.
    pub consume-run :
        (r : Request F) (rs : List (Request F))
        → IsInOrder r.now rs
        → (consume r (run limit rs).0).1
          ≡ ltb
              (recent (cutoff_of r.now) (times r.subject (run limit rs).1))
              (or_else r.own_limit limit)
    unfolding consume
    consume-run r rs o =
        let k = run-Tracks r.now rs o in
        let seen = (k.follows r.subject) in
        let counted = seen.counted (cutoff_of r.now) (laws.le_refl (cutoff_of r.now)) in
        let left =
          length-expire laws (cutoff_of r.now) (events_of r.subject (run limit rs).0) seen.rising in
        rw (counted, sym left, sym k.same_limit) (ground arith)
