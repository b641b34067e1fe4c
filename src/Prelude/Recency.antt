-- ===== src/Prelude/Recency.antt =====
-- How many entries of an `OrderedDict` stand behind a key, and so how long the key outlives a trim.
use production_local_llm_inf.Prelude.{
  ℕ, ◌+◌, ◌≤◌, ◌<◌, ◌≡◌, refl, ◌∙◌, some, none, Option-cases, inl, inr, [], ◌∷◌, ◌++◌, arith,
  length, Eq, ◌==◌, if◌then◌else◌, false,
}
use production_local_llm_inf.Prelude.Dict.{
  Dict, get, put, remove, move_to_end, move_to_end_present, move_to_end_absent, IsDistinct,
  get-remove, get-put, get-put_self, put-IsDistinct, get-append,
}
use production_local_llm_inf.Prelude.Bounded.{trim, push, get-move_to_end}

module _ {K V : Type 0} ⦃e : Eq K⦄ where
  unfoldable pub behind : K → Dict K V → ℕ
  behind k [] = 0
  behind k ((i, w) ∷ d) = if i == k then length d else behind k d

  -- A key with fewer entries behind it than the size outlives the trim.
  pub get-trim-behind :
      (n : ℕ) (k : K) (d : Dict K V) {v : V}
      → get k d ≡ some v
      → behind k d < n
      → (get k (trim n d) ≡ some v) × (behind k (trim n d) ≤ behind k d)
  unfolding trim get behind
  get-trim-behind n k [] h p = (h, omega arith)
  get-trim-behind n k ((i, w) ∷ d) {v} h p =
      ground (arith, λ (q : get k d ≡ some v). get-trim-behind n k d q)

  length-append_one : (d : Dict K V) (x : K × V) → length (d ++ x ∷ []) ≡ length d + 1
  length-append_one [] x = refl
  length-append_one (y ∷ d) x = ground (arith, length-append_one d x)

  behind-append :
      (k : K) (d : Dict K V) (x : K × V) {v : V}
      → get k d ≡ some v
      → behind k (d ++ x ∷ []) ≡ behind k d + 1
  unfolding get behind
  behind-append k [] x h = cc
  behind-append k ((i, w) ∷ d) x {v} h =
      ground (arith, length-append_one d x, λ (q : get k d ≡ some v). behind-append k d x q)

  behind-last : (k : K) (d : Dict K V) (v : V) → get k d ≡ none → behind k (d ++ (k, v) ∷ []) ≡ 0
  unfolding get behind
  behind-last k [] v h = ground (arith, e.beq_iff k k)
  behind-last k ((i, w) ∷ d) v h = ground (arith, λ (q : get k d ≡ none). behind-last k d v q)

  length-remove-le : (j : K) (d : Dict K V) → length (remove j d) ≤ length d
  unfolding remove
  length-remove-le j [] = omega arith
  length-remove-le j ((i, w) ∷ d) = ground (arith, length-remove-le j d)

  pub behind-remove-le :
      (j k : K) (d : Dict K V) → (j == k) ≡ false → behind k (remove j d) ≤ behind k d
  unfolding remove behind
  behind-remove-le j k [] h = omega arith
  behind-remove-le j k ((i, w) ∷ d) h = ground (
    arith,
    e.beq_iff i j,
    e.beq_iff j k,
    e.beq_iff i k,
    behind-remove-le j k d h,
    length-remove-le j d,
  )

  length-remove-put-le : (j : K) (v : V) (d : Dict K V) → length (remove j (put j v d)) ≤ length d
  unfolding remove put
  length-remove-put-le j v [] = ground (arith, e.beq_iff j j)
  length-remove-put-le j v ((i, w) ∷ d) =
      ground (arith, e.beq_iff i j, e.beq_iff j j, length-remove-put-le j v d)

  pub behind-remove-put-le :
      (j k : K) (v : V) (d : Dict K V)
      → (j == k) ≡ false
      → behind k (remove j (put j v d)) ≤ behind k d
  unfolding remove put behind
  behind-remove-put-le j k v [] h = ground (arith, e.beq_iff j j)
  behind-remove-put-le j k v ((i, w) ∷ d) h = ground (
    arith,
    e.beq_iff i j,
    e.beq_iff j j,
    e.beq_iff j k,
    e.beq_iff i k,
    behind-remove-put-le j k v d h,
    length-remove-put-le j v d,
  )

  kept-remove :
      (j k : K) (d : Dict K V) {v : V}
      → (j == k) ≡ false
      → IsDistinct d
      → get k d ≡ some v
      → get k (remove j d) ≡ some v
  kept-remove j k d h u p = ground (arith, get-remove j k d u)

  -- Another key's move to the end puts one more entry behind, and the key's own none.
  pub behind-move_to_end-le :
      (j k : K) (d : Dict K V) {v : V}
      → (j == k) ≡ false
      → IsDistinct d
      → get k d ≡ some v
      → behind k (move_to_end j d) ≤ behind k d + 1
  behind-move_to_end-le j k d h u p = elim (Option-cases (get j d)) [
    | inl a ↦ rw (move_to_end_absent j d a) (ground (arith, behind-remove-le j k d h))
    | inr (w, q) ↦ rw (move_to_end_present j d q) (
        ground (
          arith,
          behind-remove-le j k d h,
          behind-append k (remove j d) (j, w) (kept-remove j k d h u p),
        ))
  ]

  pub behind-move_to_end_self :
      (k : K) (d : Dict K V) {v : V}
      → IsDistinct d
      → get k d ≡ some v
      → behind k (move_to_end k d) ≡ 0
  behind-move_to_end_self k d {v} u p =
      rw (move_to_end_present k d p)
        (behind-last k (remove k d) v (ground (arith, e.beq_iff k k, get-remove k k d u)))

  -- A key outlives the writing of another while it has fewer entries behind it than the size.
  pub get-push-behind :
      (n : ℕ) (j k : K) (w : V) (d : Dict K V) {v : V}
      → (j == k) ≡ false
      → IsDistinct d
      → get k d ≡ some v
      → behind k d + 1 < n
      → (get k (push n j w d) ≡ some v) × (behind k (push n j w d) ≤ behind k d + 1)
  unfolding push
  get-push-behind n j k w d {v} h u p room =
      let written = put j w d in
      let distinct = put-IsDistinct j w d u in
      let there : get k written ≡ some v = ground (arith, get-put j k w d) in
      let moved = remove j written ++ (j, w) ∷ [] in
      let same = move_to_end_present j written (get-put_self j w d) in
      let shifted =
        behind-append k (remove j written) (j, w) (kept-remove j k written h distinct there) in
      let fewer = behind-remove-put-le j k w d h in
      let held : get k moved ≡ some v = ground (
        arith,
        get-append k (remove j written) ((j, w) ∷ []),
        kept-remove j k written h distinct there,
      ) in
      let (left, after) = get-trim-behind n k moved held (omega (arith, shifted, fewer, room)) in
      rw same (left, omega (arith, shifted, fewer, after))

  -- What was just written has nothing behind it.
  pub behind-push_self :
      (n : ℕ) (k : K) (v : V) (d : Dict K V) → 0 < n → IsDistinct d → behind k (push n k v d) ≡ 0
  unfolding push
  behind-push_self n k v d positive u =
      let written = put k v d in
      let distinct = put-IsDistinct k v d u in
      let there = get-put_self k v d in
      let none_behind = behind-move_to_end_self k written distinct there in
      let (_, after) =
        get-trim-behind n k (move_to_end k written) (get-move_to_end k k written distinct ∙ there)
          (omega (arith, none_behind, positive)) in
      omega (arith, none_behind, after)
