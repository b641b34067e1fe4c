-- ===== src/Prelude/Sort.antt =====
-- `sorted(xs)` of floats, and what a rank in a sorted list means.
use production_local_llm_inf.Prelude.{
  ℕ, zero, suc, ◌<◌, ◌≡◌, refl, Bool, true, some, List, [], ◌∷◌, arith, length, get_elem?, count_if,
  if◌then◌else◌,
}
use production_local_llm_inf.Prelude.Float.{Float, IsOrdered}

module _ {F : Type 0} ⦃f : Float F⦄ where
  unfoldable pub insert_sorted : F → List F → List F
  insert_sorted x [] = x ∷ []
  insert_sorted x (y ∷ ys) = if f.lt x y then x ∷ y ∷ ys else y ∷ insert_sorted x ys

  unfoldable pub sorted : List F → List F
  unfolding insert_sorted
  sorted [] = []
  sorted (x ∷ xs) = insert_sorted x (sorted xs)

  abbrev IsBelow : F → List F → Type 0
  IsBelow x [] = Unit
  IsBelow x (y ∷ ys) = (f.le x y ≡ true) × IsBelow x ys

  abbrev pub IsSorted : List F → Type 0
  IsSorted [] = Unit
  IsSorted (x ∷ xs) = IsBelow x xs × IsSorted xs

  pub count_if-insert_sorted :
      (p : F → Bool) (x : F) (xs : List F) → count_if p (insert_sorted x xs) ≡ count_if p (x ∷ xs)
  unfolding insert_sorted
  count_if-insert_sorted p x [] = refl
  count_if-insert_sorted p x (y ∷ ys) = ground (arith, count_if-insert_sorted p x ys)

  pub count_if-sorted : (p : F → Bool) (xs : List F) → count_if p (sorted xs) ≡ count_if p xs
  unfolding sorted
  count_if-sorted p [] = refl
  count_if-sorted p (x ∷ xs) =
      ground (arith, count_if-insert_sorted p x (sorted xs), count_if-sorted p xs)

  length-insert_sorted : (x : F) (xs : List F) → length (insert_sorted x xs) ≡ suc (length xs)
  unfolding insert_sorted
  length-insert_sorted x [] = refl
  length-insert_sorted x (y ∷ ys) = ground (arith, length-insert_sorted x ys)

  pub length-sorted : (xs : List F) → length (sorted xs) ≡ length xs
  unfolding sorted
  length-sorted [] = refl
  length-sorted (x ∷ xs) = ground (arith, length-insert_sorted x (sorted xs), length-sorted xs)

  module _ (laws : IsOrdered F) where
    IsBelow-trans : (x y : F) (ys : List F) → f.le x y ≡ true → IsBelow y ys → IsBelow x ys
    IsBelow-trans x y [] h b = tt
    IsBelow-trans x y (z ∷ zs) h b = (laws.le_trans x y z h b.0, IsBelow-trans x y zs h b.1)

    IsBelow-insert_sorted :
        (z x : F) (xs : List F) → f.le z x ≡ true → IsBelow z xs → IsBelow z (insert_sorted x xs)
    unfolding insert_sorted
    IsBelow-insert_sorted z x [] h b = (h, tt)
    IsBelow-insert_sorted z x (y ∷ ys) h b = ground (arith, IsBelow-insert_sorted z x ys h b.1)

    insert_sorted-IsSorted : (x : F) (xs : List F) → IsSorted xs → IsSorted (insert_sorted x xs)
    unfolding insert_sorted
    insert_sorted-IsSorted x [] s = (tt, tt)
    insert_sorted-IsSorted x (y ∷ ys) s = ground (
      arith,
      laws.lt-eq-not-le x y,
      laws.le_of_lt x y,
      IsBelow-trans x y ys,
      IsBelow-insert_sorted y x ys,
      insert_sorted-IsSorted x ys s.1,
    )

    pub sorted-IsSorted : (xs : List F) → IsSorted (sorted xs)
    unfolding sorted
    sorted-IsSorted [] = tt
    sorted-IsSorted (x ∷ xs) = insert_sorted-IsSorted x (sorted xs) (sorted-IsSorted xs)

    le_of_IsBelow :
        (x : F) (xs : List F) (i : ℕ) {v : F}
        → IsBelow x xs
        → get_elem? xs i ≡ some v
        → f.le x v ≡ true
    le_of_IsBelow x [] i b h = cc
    le_of_IsBelow x (y ∷ ys) zero b h = ground arith
    le_of_IsBelow x (y ∷ ys) (suc i) b h = le_of_IsBelow x ys i b.1 h

    -- The element at place `i` of a sorted list has `i + 1` elements that are not above it.
    pub rank-le-count :
        (xs : List F) (i : ℕ) {v : F}
        → IsSorted xs
        → get_elem? xs i ≡ some v
        → i < count_if (λ x. f.le x v) xs
    rank-le-count [] i s h = cc
    rank-le-count (x ∷ xs) zero {v} s h = ground (arith, laws.le_refl v)
    rank-le-count (x ∷ xs) (suc i) {v} s h =
        ground (arith, rank-le-count xs i s.1 h, le_of_IsBelow x xs i s.0 h)
