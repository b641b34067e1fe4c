-- ===== src/Prelude/Keyed.antt =====
-- `{key(x): x for x in xs}`, and the entries of a dictionary as a list.
use production_local_llm_inf.Prelude.{
  ◌≡◌, refl, ap, ◌⊎◌, inl, inr, true, Option, none, some, List, [], ◌∷◌, ◌∈◌, arith, Eq, is_some,
}
use production_local_llm_inf.Prelude.Dict.{Dict, get, put, IsDistinct, get-put, put-IsDistinct}

module _ {K V : Type 0} ⦃e : Eq K⦄ where
  pub get-mem : (k : K) (d : Dict K V) {v : V} → get k d ≡ some v → (k, v) ∈ d
  unfolding get
  get-mem k [] h = absurd (ground arith)
  get-mem k ((j, w) ∷ d) {v} h =
      ground (arith, e.beq_iff j k, λ (q : get k d ≡ some v). get-mem k d q)

  pub mem-get : (k : K) (v : V) (d : Dict K V) → IsDistinct d → (k, v) ∈ d → get k d ≡ some v
  unfolding get
  mem-get k v [] h m = absurd m
  mem-get k v ((j, w) ∷ d) h m = ground (arith, e.beq_iff j k, mem-get k v d h.1)

module _ {A K : Type 0} ⦃e : Eq K⦄ (key : A → K) where
  unfoldable keyed_from : Dict K A → List A → Dict K A
  keyed_from d [] = d
  keyed_from d (x ∷ xs) = keyed_from (put (key x) x d) xs

  unfoldable pub keyed : List A → Dict K A
  unfolding keyed_from
  keyed xs = keyed_from [] xs

  mem-keyed_from :
      (d : Dict K A) (xs : List A) (k : K) {a : A}
      → get k (keyed_from d xs) ≡ some a
      → ((a ∈ xs) × (key a ≡ k)) ⊎ (get k d ≡ some a)
  unfolding keyed_from
  mem-keyed_from d [] k h = inr h
  mem-keyed_from d (x ∷ xs) k {a = a} h =
      ground
        (arith, mem-keyed_from (put (key x) x d) xs k h, get-put (key x) k x d, e.beq_iff (key x) k)

  keyed_from-keeps :
      (d : Dict K A) (xs : List A) (k : K)
      → is_some (get k d) ≡ true
      → is_some (get k (keyed_from d xs)) ≡ true
  unfolding keyed_from
  keyed_from-keeps d [] k h = h
  keyed_from-keeps d (x ∷ xs) k h =
      keyed_from-keeps (put (key x) x d) xs k (ground (arith, get-put (key x) k x d))

  keyed_from-found :
      (d : Dict K A) (xs : List A) (a : A) → a ∈ xs → is_some (get (key a) (keyed_from d xs)) ≡ true
  unfolding keyed_from
  keyed_from-found d [] a m = absurd m
  keyed_from-found d (x ∷ xs) a (inl q) =
      keyed_from-keeps (put (key x) x d) xs (key a)
        (ground (arith, ap key q, get-put (key x) (key a) x d, e.beq_iff (key x) (key a)))
  keyed_from-found d (x ∷ xs) a (inr m) = keyed_from-found (put (key x) x d) xs a m

  keyed_from-IsDistinct : (d : Dict K A) (xs : List A) → IsDistinct d → IsDistinct (keyed_from d xs)
  unfolding keyed_from
  keyed_from-IsDistinct d [] h = h
  keyed_from-IsDistinct d (x ∷ xs) h =
      keyed_from-IsDistinct (put (key x) x d) xs (put-IsDistinct (key x) x d h)

  pub keyed-IsDistinct : (xs : List A) → IsDistinct (keyed xs)
  unfolding keyed
  keyed-IsDistinct xs = keyed_from-IsDistinct [] xs tt

  pub keyed-found : (xs : List A) (a : A) → a ∈ xs → is_some (get (key a) (keyed xs)) ≡ true
  unfolding keyed
  keyed-found xs a m = keyed_from-found [] xs a m

  pub mem-keyed : (xs : List A) (k : K) {a : A} → get k (keyed xs) ≡ some a → (a ∈ xs) × (key a ≡ k)
  unfolding keyed get
  mem-keyed xs k {a = a} h = elim (mem-keyed_from [] xs k h) [
    | inl q ↦ q
    | inr q ↦ absurd (ground arith)
  ]

  -- An element whose key no other element has is the entry at its key.
  pub get-keyed :
      (xs : List A) (a : A)
      → a ∈ xs
      → ((b : A) → b ∈ xs → key b ≡ key a → b ≡ a)
      → get (key a) (keyed xs) ≡ some a
  unfolding keyed
  get-keyed xs a m one = found (get (key a) (keyed_from [] xs)) refl (keyed_from-found [] xs a m)
    where
      found : (o : Option A) → get (key a) (keyed xs) ≡ o → is_some o ≡ true → o ≡ some a
      found none q h = absurd (ground arith)
      found (some b) q h = let (k, r) = mem-keyed xs (key a) q in ap some (one b k r)
