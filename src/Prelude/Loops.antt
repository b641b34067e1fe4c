-- ===== src/Prelude/Loops.antt =====
-- Comprehensions and loops that extend a list, and what is a member of the list they build.
use production_local_llm_inf.Prelude.{
  ◌≡◌, refl, ap, ◌∙◌, ◌⊎◌, inl, inr, Bool, true, List, [], ◌∷◌, ◌++◌, ◌∈◌, arith, is_empty, ◌&&◌,
  if◌then◌else◌,
}
use production_local_llm_inf.Prelude.Result.{Result, ok, raise, ◌>>=◌, >>=-eq-ok}

module _ {A : Type 0} where
  pub mem-append : (a : A) (xs ys : List A) → a ∈ xs ++ ys → (a ∈ xs) ⊎ (a ∈ ys)
  mem-append a [] ys m = inr m
  mem-append a (x ∷ xs) ys m = ground (arith, mem-append a xs ys)

  pub append-mem : (a : A) (xs ys : List A) → (a ∈ xs) ⊎ (a ∈ ys) → a ∈ xs ++ ys
  append-mem a [] ys m = ground arith
  append-mem a (x ∷ xs) ys m = ground (arith, append-mem a xs ys)

  -- `if test: xs.append(x)`.
  abbrev pub only_if : Bool → A → List A
  only_if b a = if b then a ∷ [] else []

-- `[y for x in xs for y in f(x)]`.
module _ {A B : Type 0} (f : A → List B) where
  unfoldable pub flat_map : List A → List B
  flat_map [] = []
  flat_map (x ∷ xs) = f x ++ flat_map xs

  pub mem-flat_map : (xs : List A) (b : B) → b ∈ flat_map xs → (a : A) × (a ∈ xs) × (b ∈ f a)
  unfolding flat_map
  mem-flat_map [] b m = absurd m
  mem-flat_map (x ∷ xs) b m = elim (mem-append b (f x) (flat_map xs) m) [
    | inl h ↦ (x, inl refl, h)
    | inr h ↦ let (a, k, q) = mem-flat_map xs b h in (a, inr k, q)
  ]

  pub flat_map-mem : (xs : List A) (a : A) (b : B) → a ∈ xs → b ∈ f a → b ∈ flat_map xs
  unfolding flat_map
  flat_map-mem [] a b m h = absurd m
  flat_map-mem (x ∷ xs) a b (inl e) h = append-mem b (f x) (flat_map xs) (inl (rw e at h))
  flat_map-mem (x ∷ xs) a b (inr m) h =
      append-mem b (f x) (flat_map xs) (inr (flat_map-mem xs a b m h))

-- A list without members is empty.
pub nil_of_no_mem : {A : Type 0} (xs : List A) → ((a : A) → a ∈ xs → ⊥) → xs ≡ []
nil_of_no_mem [] h = refl
nil_of_no_mem (x ∷ xs) h = absurd (h x (inl refl))

-- `for x in xs: ys.extend(f(x))`, where `f` may raise.
module _ {A B E : Type 0} (f : A → Result E (List B)) where
  unfoldable pub gather : List A → Result E (List B)
  gather [] = ok []
  gather (x ∷ xs) = f x >>= λ ys. gather xs >>= λ rest. ok (ys ++ rest)

  gather_split :
      (x : A) (xs : List A) {zs : List B}
      → gather (x ∷ xs) ≡ ok zs
      → (ys : List B) × (f x ≡ ok ys) × (rest : List B) × (gather xs ≡ ok rest) × (zs ≡ ys ++ rest)
  unfolding gather
  gather_split x xs h =
      let (ys, first, h₁) = >>=-eq-ok (f x) _ h in
      let (rest, second, h₂) = >>=-eq-ok (gather xs) (λ rest. ok (ys ++ rest)) h₁ in
      (ys, first, rest, second, cc)

  pub mem-gather :
      (xs : List A) {zs : List B}
      → gather xs ≡ ok zs
      → (b : B) → b ∈ zs
      → (a : A) × (a ∈ xs) × (ys : List B) × (f a ≡ ok ys) × (b ∈ ys)
  unfolding gather
  mem-gather [] {zs = zs} h b m = absurd (ground arith)
  mem-gather (x ∷ xs) {zs = zs} h b m =
      let (ys, first, rest, second, e) = gather_split x xs h in
      elim (mem-append b ys rest (rw e at m)) [
        | inl k ↦ (x, inl refl, ys, first, k)
        | inr k ↦ let (a, l, ws, q, r) = mem-gather xs second b k in (a, inr l, ws, q, r)
      ]

  pub gather-mem :
      (xs : List A) {zs : List B}
      → gather xs ≡ ok zs
      → (a : A) → a ∈ xs
      → (ys : List B) × (f a ≡ ok ys) × ((b : B) → b ∈ ys → b ∈ zs)
  gather-mem [] h a m = absurd m
  gather-mem (x ∷ xs) {zs = zs} h a m =
      let (ys, first, rest, second, e) = gather_split x xs h in
      elim m [
        | inl k ↦ (ys, ap f k ∙ first, λ b l. rw e (append-mem b ys rest (inl l)))
        | inr k ↦
            let (ws, q, r) = gather-mem xs second a k in
            (ws, q, λ b l. rw e (append-mem b ys rest (inr (r b l))))
      ]

  pub gather-nil : (xs : List A) → ((a : A) → a ∈ xs → f a ≡ ok []) → gather xs ≡ ok []
  unfolding gather
  gather-nil [] h = refl
  gather-nil (x ∷ xs) h = rw (h x (inl refl), gather-nil xs (λ a m. h a (inr m)))

-- A loop that extends a list ends, or raises what it raised at an element.
pub gather-cases :
    {A B E : Type 0} (f : A → Result E (List B)) (xs : List A)
    → ((ys : List B) × (gather f xs ≡ ok ys))
      ⊎ (e : E) × (a : A) × (a ∈ xs) × (f a ≡ raise e) × (gather f xs ≡ raise e)
unfolding gather
gather-cases f [] = inl ([], refl)
gather-cases {A = A} {B = B} {E = E} f (x ∷ xs) = place (f x) refl (gather-cases f xs)
  where
    place :
        (m : Result E (List B))
        → f x ≡ m
        → ((ys : List B) × (gather f xs ≡ ok ys))
          ⊎ (e : E) × (a : A) × (a ∈ xs) × (f a ≡ raise e) × (gather f xs ≡ raise e)
        → ((ys : List B) × (gather f (x ∷ xs) ≡ ok ys))
          ⊎ (e : E) × (a : A) × (a ∈ (x ∷ xs)) × (f a ≡ raise e) × (gather f (x ∷ xs) ≡ raise e)
    place (raise e) h rest = inr (e, x, inl refl, h, rw h)
    place (ok zs) h (inl (ys, q)) = inl (zs ++ ys, rw (h, q))
    place (ok zs) h (inr (e, a, k, q, r)) = inr (e, a, inr k, q, rw (h, r))

-- A list put together from empty parts.
pub is_empty-append :
    {A : Type 0} (xs ys : List A) → is_empty (xs ++ ys) ≡ (is_empty xs && is_empty ys)
is_empty-append [] ys = refl
is_empty-append (x ∷ xs) ys = refl

module _ {A B : Type 0} (f : A → List B) where
  pub is_empty-flat_map :
      (xs : List A) → is_empty (flat_map f xs) ≡ true → (a : A) → a ∈ xs → is_empty (f a) ≡ true
  unfolding flat_map
  is_empty-flat_map [] h a m = absurd m
  is_empty-flat_map (x ∷ xs) h a (inl e) =
      ap (λ a. is_empty (f a)) e ∙ ground (arith, is_empty-append (f x) (flat_map f xs))
  is_empty-flat_map (x ∷ xs) h a (inr m) =
      is_empty-flat_map xs (ground (arith, is_empty-append (f x) (flat_map f xs))) a m

  pub flat_map-is_empty :
      (xs : List A) → ((a : A) → a ∈ xs → is_empty (f a) ≡ true) → is_empty (flat_map f xs) ≡ true
  unfolding flat_map
  flat_map-is_empty [] h = refl
  flat_map-is_empty (x ∷ xs) h = ground (
    arith,
    is_empty-append (f x) (flat_map f xs),
    h x (inl refl),
    flat_map-is_empty xs (λ a m. h a (inr m)),
  )
