-- ===== src/Prelude/Float.antt =====
-- All that the code does with a `float`: comparisons, arithmetic, rounding, whole numbers and
-- decimal literals. What a sum or a quotient is stays open; the laws are those of the order.
use production_local_llm_inf.Prelude.{
  ℕ, ◌*◌, ◌/◌, ◌≡◌, Bool, true, false, not, List, [], ◌∷◌, arith, if◌then◌else◌, ◌∈◌, inl, inr,
  refl,
}
use production_local_llm_inf.Prelude.Int.{ℤ, pos, ◌+ℤ◌, ◌-ℤ◌, ltb_ℤ, leb_ℤ, magnitude, sign, scale}

pub record Float (F : Type 0) : Type 0 where
  pub lt : F → F → Bool
  pub le : F → F → Bool
  pub add : F → F → F
  pub sub : F → F → F
  pub neg : F → F
  pub mul : F → F → F
  pub div : F → F → F
  -- `float(n)`, and the whole numbers that arithmetic mixes with floats.
  pub of_nat : ℕ → F
  -- The literal whose exact value is the first number over the second.
  pub ratio : ℕ → ℕ → F
  -- `round(x, digits)`.
  pub round : F → ℕ → F

-- The comparisons are a total order on the values that are not NaN.
pub record IsOrdered (F : Type 0) ⦃f : Float F⦄ : Type 0 where
  pub le_refl : (x : F) → f.le x x ≡ true
  pub le_trans : (x y z : F) → f.le x y ≡ true → f.le y z ≡ true → f.le x z ≡ true
  pub lt-eq-not-le : (x y : F) → f.lt x y ≡ not (f.le y x)
  pub le_of_lt : (x y : F) → f.lt x y ≡ true → f.le x y ≡ true

module _ {F : Type 0} ⦃f : Float F⦄ where
  -- `max(a, b)` and `min(a, b)` keep the first of two that compare equal.
  unfoldable pub fmax : F → F → F
  fmax a b = if f.lt a b then b else a

  unfoldable pub fmin : F → F → F
  fmin a b = if f.lt b a then b else a

  -- The loops of `max(xs)` and `min(xs)`.
  unfoldable pub max_from : F → List F → F
  max_from best [] = best
  max_from best (x ∷ xs) = max_from (if f.lt best x then x else best) xs

  unfoldable pub min_from : F → List F → F
  min_from best [] = best
  min_from best (x ∷ xs) = min_from (if f.lt x best then x else best) xs

  -- `min(xs, default=d)`.
  unfoldable pub min_or : F → List F → F
  unfolding min_from
  min_or d [] = d
  min_or d (x ∷ xs) = min_from x xs

  -- What holds of every element holds of the largest and of the smallest.
  module _ (P : F → Type 0) where
    pick : (b : Bool) {x y : F} → P x → P y → P (if b then x else y)
    pick true p q = p
    pick false p q = q

    pub max_from-holds :
        (best : F) (xs : List F) → P best → ((x : F) → x ∈ xs → P x) → P (max_from best xs)
    unfolding max_from
    max_from-holds best [] p h = p
    max_from-holds best (x ∷ xs) p h =
        max_from-holds (if f.lt best x then x else best) xs (pick (f.lt best x) (h x (inl refl)) p)
          (λ y m. h y (inr m))

    min_from-holds :
        (best : F) (xs : List F) → P best → ((x : F) → x ∈ xs → P x) → P (min_from best xs)
    unfolding min_from
    min_from-holds best [] p h = p
    min_from-holds best (x ∷ xs) p h =
        min_from-holds (if f.lt x best then x else best) xs (pick (f.lt x best) (h x (inl refl)) p)
          (λ y m. h y (inr m))

    pub min_or-holds : (d : F) (xs : List F) → P d → ((x : F) → x ∈ xs → P x) → P (min_or d xs)
    unfolding min_or
    min_or-holds d [] p h = p
    min_or-holds d (x ∷ xs) p h = min_from-holds x xs (h x (inl refl)) (λ y m. h y (inr m))

  -- `abs(x)`.
  unfoldable pub abs : F → F
  abs x = if f.lt x (f.of_nat 0) then f.neg x else x

  abbrev pub sum_from : F → List F → F
  sum_from acc [] = acc
  sum_from acc (x ∷ xs) = sum_from (f.add acc x) xs

  -- `sum(xs)`.
  abbrev pub sum : List F → F
  sum xs = sum_from (f.of_nat 0) xs

module _ {F : Type 0} ⦃f : Float F⦄ {A : Type 0} (key : A → F) where
  -- The loop of `max(xs, key=key)`: a later element replaces the best only by a larger key.
  unfoldable pub argmax_from : A → List A → A
  argmax_from best [] = best
  argmax_from best (x ∷ xs) = argmax_from (if f.lt (key best) (key x) then x else best) xs

  pub argmax_from-mem : (best : A) (xs : List A) → argmax_from best xs ∈ best ∷ xs
  unfolding argmax_from
  argmax_from-mem best [] = inl refl
  argmax_from-mem best (x ∷ xs) =
      ground (arith, argmax_from-mem (if f.lt (key best) (key x) then x else best) xs)

  module _ (laws : IsOrdered F) where
    le-argmax_from_self :
        (best : A) (xs : List A) → f.le (key best) (key (argmax_from best xs)) ≡ true
    unfolding argmax_from
    le-argmax_from_self best [] = laws.le_refl (key best)
    le-argmax_from_self best (x ∷ xs) = ground (
      arith,
      laws.le_of_lt (key best) (key x),
      laws.le_trans (key best) (key x) (key (argmax_from x xs)),
      le-argmax_from_self best xs,
      le-argmax_from_self x xs,
    )

    -- No element has a larger key.
    pub le-argmax_from :
        (best : A) (xs : List A) (a : A)
        → a ∈ best ∷ xs
        → f.le (key a) (key (argmax_from best xs)) ≡ true
    unfolding argmax_from
    le-argmax_from best xs a (inl e) = rw e (le-argmax_from_self best xs)
    le-argmax_from best [] a (inr m) = absurd m
    le-argmax_from best (x ∷ xs) a (inr (inl e)) = ground (
      arith,
      laws.lt-eq-not-le (key best) (key x),
      laws.le_trans (key x) (key best) (key (argmax_from best xs)),
      le-argmax_from_self best xs,
      le-argmax_from_self x xs,
    )
    le-argmax_from best (x ∷ xs) a (inr (inr m)) =
        le-argmax_from (if f.lt (key best) (key x) then x else best) xs a (inr m)

-- The laws can be met: signed thousandths.
instance abbrev pub milli_float : Float ℤ
milli_float = record {
  lt = ltb_ℤ;
  le = leb_ℤ;
  add = λ a b. a +ℤ b;
  sub = λ a b. a -ℤ b;
  neg = λ a. pos 0 -ℤ a;
  mul = λ a b. scale (sign a b) (magnitude a * magnitude b / 1000);
  div = λ a b. scale (sign a b) (magnitude a * 1000 / magnitude b);
  of_nat = λ n. pos (n * 1000);
  ratio = λ n d. pos (n * 1000 / d);
  round = λ x digits. x;
}

pub Milli-IsOrdered : IsOrdered ℤ
Milli-IsOrdered = record {
  le_refl = λ x. ground arith;
  le_trans = λ x y z p q. ground arith;
  lt-eq-not-le = λ x y. ground arith;
  le_of_lt = λ x y p. ground arith;
}
