-- ===== src/Prelude/Dict.antt =====
-- Python's `dict` and `OrderedDict`: entries in insertion order, no key twice.
use production_local_llm_inf.Prelude.{
  ◌≡◌, refl, Option, none, some, List, [], ◌∷◌, ◌++◌, arith, Eq, ◌==◌, if◌then◌else◌, is_some,
}

abbrev pub Dict : Type 0 → Type 0 → Type 0
Dict K V = List (K × V)

module _ {K V : Type 0} ⦃e : Eq K⦄ where
  -- `d.get(k)`.
  unfoldable pub get : K → Dict K V → Option V
  get k [] = none
  get k ((j, v) ∷ d) = if j == k then some v else get k d

  -- `d[k] = v`: a present key keeps its place.
  unfoldable pub put : K → V → Dict K V → Dict K V
  put k v [] = (k, v) ∷ []
  put k v ((j, w) ∷ d) = if j == k then (k, v) ∷ d else (j, w) ∷ put k v d

  -- `del d[k]` of a key that may be missing.
  unfoldable pub remove : K → Dict K V → Dict K V
  remove k [] = []
  remove k ((j, w) ∷ d) = if j == k then d else (j, w) ∷ remove k d

  append_found : K → Option V → Dict K V → Dict K V
  append_found k none d = d
  append_found k (some v) d = d ++ (k, v) ∷ []

  -- `d.move_to_end(k)`.
  unfoldable pub move_to_end : K → Dict K V → Dict K V
  unfolding append_found
  move_to_end k d = append_found k (get k d) (remove k d)

  -- No key stands twice.
  abbrev pub IsDistinct : Dict K V → Type 0
  IsDistinct [] = Unit
  IsDistinct ((k, v) ∷ d) = (get k d ≡ none) × IsDistinct d

  pub get-put :
      (k j : K) (v : V) (d : Dict K V) → get j (put k v d) ≡ (if k == j then some v else get j d)
  unfolding get put
  get-put k j v [] = refl
  get-put k j v ((i, w) ∷ d) =
      ground (arith, e.beq_iff k j, e.beq_iff i k, e.beq_iff i j, get-put k j v d)

  pub get-put_self : (k : K) (v : V) (d : Dict K V) → get k (put k v d) ≡ some v
  get-put_self k v d = ground (arith, e.beq_iff k k, get-put k k v d)

  pub put-IsDistinct : (k : K) (v : V) (d : Dict K V) → IsDistinct d → IsDistinct (put k v d)
  unfolding get put
  put-IsDistinct k v [] h = (refl, tt)
  put-IsDistinct k v ((i, w) ∷ d) h =
      ground (arith, e.beq_iff i k, e.beq_iff k i, get-put k i v d, put-IsDistinct k v d h.1)

  pub get-remove :
      (k j : K) (d : Dict K V)
      → IsDistinct d
      → get j (remove k d) ≡ (if k == j then none else get j d)
  unfolding get remove
  get-remove k j [] h = ground arith
  get-remove k j ((i, w) ∷ d) h =
      ground (arith, e.beq_iff k j, e.beq_iff i k, e.beq_iff i j, get-remove k j d h.1)

  pub remove-IsDistinct : (k : K) (d : Dict K V) → IsDistinct d → IsDistinct (remove k d)
  unfolding get remove
  remove-IsDistinct k [] h = tt
  remove-IsDistinct k ((i, w) ∷ d) h =
      ground (arith, get-remove k i d h.1, remove-IsDistinct k d h.1)

  pub get-append :
      (j : K) (c d : Dict K V) → get j (c ++ d) ≡ (if is_some (get j c) then get j c else get j d)
  unfolding get
  get-append j [] d = refl
  get-append j ((i, w) ∷ c) d = ground (arith, get-append j c d)

  pub append-IsDistinct :
      (k : K) (v : V) (d : Dict K V) → IsDistinct d → get k d ≡ none → IsDistinct (d ++ (k, v) ∷ [])
  unfolding get
  append-IsDistinct k v [] h a = (refl, tt)
  append-IsDistinct k v ((i, w) ∷ d) h a = ground (
    arith,
    e.beq_iff i k,
    e.beq_iff k i,
    get-append i d ((k, v) ∷ []),
    append-IsDistinct k v d h.1,
  )

  pub move_to_end_present :
      (k : K) (d : Dict K V) {v : V}
      → get k d ≡ some v
      → move_to_end k d ≡ remove k d ++ (k, v) ∷ []
  unfolding move_to_end
  move_to_end_present k d p = rw (p, append_found)

  pub move_to_end_absent : (k : K) (d : Dict K V) → get k d ≡ none → move_to_end k d ≡ remove k d
  unfolding move_to_end
  move_to_end_absent k d p = rw (p, append_found)
