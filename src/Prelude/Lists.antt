-- ===== src/Prelude/Lists.antt =====
-- Lists measured by native numbers, comprehensions over Boolean tests, and membership.
use Prim.Native.Nat.{ℕ, zero, suc, ◌+◌, ◌<◌}
use mathlib.Core.Path.{◌≡◌, refl, ap, ◌∙◌}
use mathlib.Core.Logic.{◌⊎◌, inl, inr}
use mathlib.Core.Bool.{Bool, true, false, ◌&&◌, ◌||◌}
use mathlib.Core.List.{List, [], ◌∷◌, ◌++◌, map}
use mathlib.Core.Option.{Option, none, some}
use native.Mathlib.Omega.{arith}
use production_local_llm_inf.Prelude.Tests.{if◌then◌else◌}

module _ {ℓ} {A : Type ℓ} where
  abbrev pub length : List A → ℕ
  length [] = 0
  length (x ∷ xs) = suc (length xs)

  abbrev pub is_empty : List A → Bool
  is_empty [] = true
  is_empty (x ∷ xs) = false

  pub length-append : (xs ys : List A) → length (xs ++ ys) ≡ length xs + length ys
  length-append [] ys = omega arith
  length-append (x ∷ xs) ys = omega (arith, length-append xs ys)

  -- `xs[i]`, `none` for the IndexError.
  abbrev pub get_elem? : List A → ℕ → Option A
  get_elem? [] i = none
  get_elem? (x ∷ xs) zero = some x
  get_elem? (x ∷ xs) (suc i) = get_elem? xs i

  -- How many elements pass a test.
  abbrev pub count_if : (A → Bool) → List A → ℕ
  count_if p [] = 0
  count_if p (x ∷ xs) = (if p x then 1 else 0) + count_if p xs

  pub get_elem?-total : (xs : List A) (i : ℕ) → i < length xs → (a : A) × (get_elem? xs i ≡ some a)
  get_elem?-total [] i h = absurd (omega arith)
  get_elem?-total (x ∷ xs) zero h = (x, refl)
  get_elem?-total (x ∷ xs) (suc i) h = get_elem?-total xs i (omega arith)

  -- `[x for x in xs if p(x)]`.
  unfoldable pub filter : (A → Bool) → List A → List A
  filter p [] = []
  filter p (x ∷ xs) = if p x then x ∷ filter p xs else filter p xs

  -- `next((x for x in xs if p(x)), None)`.
  unfoldable pub find? : (A → Bool) → List A → Option A
  find? p [] = none
  find? p (x ∷ xs) = if p x then some x else find? p xs

  -- `any` and `all` over a generator.
  unfoldable pub any : (A → Bool) → List A → Bool
  any p [] = false
  any p (x ∷ xs) = p x || any p xs

  unfoldable pub all : (A → Bool) → List A → Bool
  all p [] = true
  all p (x ∷ xs) = p x && all p xs

-- Membership, with the position kept.
infix 4 ◌∈◌
abbrev pub ◌∈◌ : {A : Type 0} → A → List A → Type 0
a ∈ [] = ⊥
a ∈ (x ∷ xs) = (a ≡ x) ⊎ (a ∈ xs)

module _ {A : Type 0} where
  pub mem-filter : (p : A → Bool) (xs : List A) (a : A) → a ∈ filter p xs → (a ∈ xs) × (p a ≡ true)
  unfolding filter
  mem-filter p [] a h = absurd h
  mem-filter p (x ∷ xs) a h = ground (arith, mem-filter p xs a)

  pub filter-mem : (p : A → Bool) (xs : List A) (a : A) → a ∈ xs → p a ≡ true → a ∈ filter p xs
  unfolding filter
  filter-mem p [] a h q = h
  filter-mem p (x ∷ xs) a h q = ground (arith, filter-mem p xs a)

  -- The element that `find?` returns is the list's, and passes the test.
  pub mem-find? :
      (p : A → Bool) (xs : List A) {a : A} → find? p xs ≡ some a → (a ∈ xs) × (p a ≡ true)
  unfolding find?
  mem-find? p [] h = cc
  mem-find? p (x ∷ xs) {a} h = ground (arith, mem-find? p xs {a = a})

  pub find?-none : (p : A → Bool) (xs : List A) → find? p xs ≡ none → (a : A) → a ∈ xs → p a ≡ false
  unfolding find?
  find?-none p [] h a m = absurd m
  find?-none p (x ∷ xs) h a m = ground (arith, λ (e : find? p xs ≡ none). find?-none p xs e a)

  pub mem-ne-nil : (xs : List A) (a : A) → a ∈ xs → is_empty xs ≡ false
  mem-ne-nil [] a m = absurd m
  mem-ne-nil (x ∷ xs) a m = refl

  pub any-of-mem : (p : A → Bool) (xs : List A) (a : A) → a ∈ xs → p a ≡ true → any p xs ≡ true
  unfolding any
  any-of-mem p [] a m h = absurd m
  any-of-mem p (x ∷ xs) a m h = ground (arith, any-of-mem p xs a)

  pub all-at : (p : A → Bool) (xs : List A) (a : A) → all p xs ≡ true → a ∈ xs → p a ≡ true
  unfolding all
  all-at p [] a h m = absurd m
  all-at p (x ∷ xs) a h m = ground (arith, all-at p xs a)

module _ {A B : Type 0} (g : A → B) where
  pub mem-map : (xs : List A) (b : B) → b ∈ map g xs → (a : A) × (a ∈ xs) × (b ≡ g a)
  mem-map [] b m = absurd m
  mem-map (x ∷ xs) b (inl e) = (x, inl refl, e)
  mem-map (x ∷ xs) b (inr m) = let (a, k, e) = mem-map xs b m in (a, inr k, e)

  pub map-mem : (xs : List A) (b : B) (a : A) → b ≡ g a → a ∈ xs → b ∈ map g xs
  map-mem [] b a e m = absurd m
  map-mem (x ∷ xs) b a e (inl q) = inl (e ∙ ap g q)
  map-mem (x ∷ xs) b a e (inr m) = inr (map-mem xs b a e m)

pub all-of :
    {A : Type 0} (p : A → Bool) (xs : List A) → ((a : A) → a ∈ xs → p a ≡ true) → all p xs ≡ true
unfolding all
all-of p [] h = refl
all-of p (x ∷ xs) h = ground (arith, h x (inl refl), all-of p xs (λ a m. h a (inr m)))
