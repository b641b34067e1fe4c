-- ===== src/Prelude/Bounded.antt =====
-- An `OrderedDict` that a client keeps below a size: write, move to the end, and pop from the
-- front while there is too much. The four caches share these steps.
use production_local_llm_inf.Prelude.{
  ℕ, ◌≤◌, ◌<◌, ◌≡◌, refl, none, some, [], ◌∷◌, ◌++◌, arith, ltb, length, Eq, ◌==◌, if◌then◌else◌,
  inl, inr, sym, ◌∙◌, Option-cases,
}
use production_local_llm_inf.Prelude.Dict.{
  Dict, get, put, remove, move_to_end, IsDistinct, get-put, get-put_self, put-IsDistinct,
  get-remove, remove-IsDistinct, get-append, append-IsDistinct, move_to_end_present,
  move_to_end_absent,
}

-- `while len(d) > n: d.popitem(last=False)`.
unfoldable pub trim : {K V : Type 0} → ℕ → Dict K V → Dict K V
trim n [] = []
trim n (x ∷ d) = let rest = trim n d in if ltb n (length (x ∷ d)) then rest else x ∷ d

pub length-trim-le : {K V : Type 0} (n : ℕ) (d : Dict K V) → length (trim n d) ≤ n
unfolding trim
length-trim-le n [] = omega arith
length-trim-le n (x ∷ d) = ground (arith, length-trim-le n d)

pub trim_of_length-le : {K V : Type 0} (n : ℕ) (d : Dict K V) → length d ≤ n → trim n d ≡ d
unfolding trim
trim_of_length-le n [] h = refl
trim_of_length-le n (x ∷ d) h = ground arith

module _ {K V : Type 0} ⦃e : Eq K⦄ where
  -- What is left after a trim was there before it.
  pub get-trim :
      (n : ℕ) (j : K) (d : Dict K V) {v : V}
      → IsDistinct d
      → get j (trim n d) ≡ some v
      → get j d ≡ some v
  unfolding trim get
  get-trim n j [] h p = p
  get-trim n j ((i, w) ∷ d) {v} h p =
      ground (arith, e.beq_iff i j, λ (q : get j (trim n d) ≡ some v). get-trim n j d h.1 q)

  pub trim-IsDistinct : (n : ℕ) (d : Dict K V) → IsDistinct d → IsDistinct (trim n d)
  unfolding trim
  trim-IsDistinct n [] h = tt
  trim-IsDistinct n (x ∷ d) h = ground (arith, trim-IsDistinct n d h.1)

  -- The entry at the end outlives a trim to a size of at least one.
  pub get-trim-last :
      (n : ℕ) (k : K) (v : V) (d : Dict K V)
      → 0 < n
      → get k d ≡ none
      → get k (trim n (d ++ (k, v) ∷ [])) ≡ some v
  unfolding trim get
  get-trim-last n k v [] h p = ground (arith, e.beq_iff k k)
  get-trim-last n k v ((i, w) ∷ d) h p =
      ground
        (arith, e.beq_iff i k, e.beq_iff k k, get-trim-last n k v d h, get-append k d ((k, v) ∷ []))

  pub get-move_to_end : (k j : K) (d : Dict K V) → IsDistinct d → get j (move_to_end k d) ≡ get j d
  unfolding get
  get-move_to_end k j d h = elim (Option-cases (get k d)) [
    | inl a ↦ ground (arith, e.beq_iff k j, get-remove k j d h, move_to_end_absent k d a)
    | inr (v, p) ↦ ground (
      arith,
      e.beq_iff k j,
      get-remove k j d h,
      move_to_end_present k d p,
      get-append j (remove k d) ((k, v) ∷ []),
    )
  ]

  pub move_to_end-IsDistinct : (k : K) (d : Dict K V) → IsDistinct d → IsDistinct (move_to_end k d)
  move_to_end-IsDistinct k d h = elim (Option-cases (get k d)) [
    | inl a ↦ rw (move_to_end_absent k d a) (remove-IsDistinct k d h)
    | inr (v, p) ↦ rw (move_to_end_present k d p) (
        append-IsDistinct k v (remove k d) (remove-IsDistinct k d h)
          (ground (arith, e.beq_iff k k, get-remove k k d h)))
  ]

  -- `d[k] = v; d.move_to_end(k); while len(d) > n: d.popitem(last=False)`.
  unfoldable pub push : ℕ → K → V → Dict K V → Dict K V
  push n k v d = trim n (move_to_end k (put k v d))

  pub length-push-le : (n : ℕ) (k : K) (v : V) (d : Dict K V) → length (push n k v d) ≤ n
  unfolding push
  length-push-le n k v d = length-trim-le n _

  pub push-IsDistinct :
      (n : ℕ) (k : K) (v : V) (d : Dict K V) → IsDistinct d → IsDistinct (push n k v d)
  unfolding push
  push-IsDistinct n k v d h =
      trim-IsDistinct n _ (move_to_end-IsDistinct k _ (put-IsDistinct k v d h))

  -- What was just written is there.
  pub get-push_self :
      (n : ℕ) (k : K) (v : V) (d : Dict K V) → 0 < n → IsDistinct d → get k (push n k v d) ≡ some v
  unfolding push
  get-push_self n k v d h u = rw (move_to_end_present k (put k v d) (get-put_self k v d)) (
      get-trim-last n k v (remove k (put k v d)) h
        (ground (arith, e.beq_iff k k, get-remove k k (put k v d) (put-IsDistinct k v d u))))

  -- Whatever is read was written last, or was there before.
  pub get-push :
      (n : ℕ) (k j : K) (v : V) (d : Dict K V) {w : V}
      → IsDistinct d
      → get j (push n k v d) ≡ some w
      → (if k == j then some v else get j d) ≡ some w
  unfolding push
  get-push n k j v d {w} u p =
      let u' = put-IsDistinct k v d u in
      let q : get j (move_to_end k (put k v d)) ≡ some w =
        get-trim n j (move_to_end k (put k v d)) (move_to_end-IsDistinct k (put k v d) u') p in
      sym (get-put k j v d) ∙ sym (get-move_to_end k j (put k v d) u') ∙ q
