-- ===== src/Admission/Window.antt =====
-- The sliding window: a request is admitted exactly when fewer than the limit were admitted in the
-- last minute.
use production_local_llm_inf.Prelude.{
  ℕ, ◌+◌, ◌≡◌, refl, Bool, true, false, not, List, [], ◌∷◌, ◌++◌, length, string_eq, if◌then◌else◌,
  arith, Bool-cases, inl, inr, count_if,
}
use production_local_llm_inf.Prelude.Float.{Float, IsOrdered}
use production_local_llm_inf.Admission.Quota.{expire}

module _ {F : Type 0} ⦃f : Float F⦄ where
  -- Later than the cutoff.
  abbrev pub is_recent : F → F → Bool
  is_recent cutoff x = not (f.le x cutoff)

  abbrev pub recent : F → List F → ℕ
  recent cutoff xs = count_if (is_recent cutoff) xs

  -- Each event is no later than the next.
  unfoldable pub IsRising : List F → Type 0
  IsRising [] = Unit
  IsRising (x ∷ []) = Unit
  IsRising (x ∷ y ∷ xs) = (f.le x y ≡ true) × IsRising (y ∷ xs)

  IsRising-tail : (x : F) (xs : List F) → IsRising (x ∷ xs) → IsRising xs
  unfolding IsRising
  IsRising-tail x [] h = tt
  IsRising-tail x (y ∷ xs) h = h.1

  pub expire-IsRising : (c : F) (xs : List F) → IsRising xs → IsRising (expire c xs)
  unfolding expire
  expire-IsRising c [] h = h
  expire-IsRising c (x ∷ xs) h = elim (Bool-cases (f.le x c)) [
    | inl old ↦ rw (old, if◌then◌else◌) (expire-IsRising c xs (IsRising-tail x xs h))
    | inr new ↦ rw (new, if◌then◌else◌) h
  ]

  -- Expiring the events up to a cutoff does not change the count after a later one.
  pub recent-expire :
      (laws : IsOrdered F) (c d : F) (xs : List F)
      → f.le c d ≡ true
      → recent d (expire c xs) ≡ recent d xs
  unfolding expire
  recent-expire laws c d [] h = refl
  recent-expire laws c d (x ∷ xs) h =
      ground (arith, recent-expire laws c d xs h, laws.le_trans x c d)

  recent_all :
      (laws : IsOrdered F) (c x : F) (xs : List F)
      → IsRising (x ∷ xs)
      → f.le x c ≡ false
      → recent c (x ∷ xs) ≡ length (x ∷ xs)
  unfolding IsRising
  recent_all laws c x [] h new = ground arith
  recent_all laws c x (y ∷ ys) h new =
      ground (arith, recent_all laws c y ys h.1 (ground (arith, laws.le_trans x y c)))

  -- Of rising events, those left after the cutoff are the recent ones.
  pub length-expire :
      (laws : IsOrdered F) (c : F) (xs : List F) → IsRising xs → length (expire c xs) ≡ recent c xs
  unfolding expire
  length-expire laws c [] h = refl
  length-expire laws c (x ∷ xs) h = elim (Bool-cases (f.le x c)) [
    | inl old ↦ ground (arith, length-expire laws c xs (IsRising-tail x xs h))
    | inr new ↦ ground (arith, recent_all laws c x xs h new)
  ]

  pub recent-append : (c : F) (xs ys : List F) → recent c (xs ++ ys) ≡ recent c xs + recent c ys
  recent-append c [] ys = omega arith
  recent-append c (x ∷ xs) ys = ground (arith, recent-append c xs ys)

  -- No event is later than `now`.
  abbrev pub IsUpTo : F → List F → Type 0
  IsUpTo now [] = Unit
  IsUpTo now (x ∷ xs) = (f.le x now ≡ true) × IsUpTo now xs

  pub append-IsRising :
      (now : F) (xs : List F) → IsRising xs → IsUpTo now xs → IsRising (xs ++ now ∷ [])
  unfolding IsRising
  append-IsRising now [] h u = tt
  append-IsRising now (x ∷ []) h u = (u.0, tt)
  append-IsRising now (x ∷ y ∷ xs) h u = (h.0, append-IsRising now (y ∷ xs) h.1 u.1)

  pub IsUpTo-later :
      (laws : IsOrdered F) (t now : F) (xs : List F)
      → f.le t now ≡ true
      → IsUpTo t xs
      → IsUpTo now xs
  IsUpTo-later laws t now [] h u = tt
  IsUpTo-later laws t now (x ∷ xs) h u =
      (laws.le_trans x t now u.0 h, IsUpTo-later laws t now xs h u.1)

  pub expire-IsUpTo : (c now : F) (xs : List F) → IsUpTo now xs → IsUpTo now (expire c xs)
  unfolding expire
  expire-IsUpTo c now [] u = tt
  expire-IsUpTo c now (x ∷ xs) u = elim (Bool-cases (f.le x c)) [
    | inl old ↦ rw (old, if◌then◌else◌) (expire-IsUpTo c now xs u.1)
    | inr new ↦ rw (new, if◌then◌else◌) u
  ]

  pub append-IsUpTo :
      (laws : IsOrdered F) (now : F) (xs : List F) → IsUpTo now xs → IsUpTo now (xs ++ now ∷ [])
  append-IsUpTo laws now [] u = (laws.le_refl now, tt)
  append-IsUpTo laws now (x ∷ xs) u = (u.0, append-IsUpTo laws now xs u.1)
