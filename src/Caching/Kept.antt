-- ===== src/Caching/Kept.antt =====
-- How long `InMemoryCacheStore` of src/llm_router/caching.py keeps what was stored: its order of use.
use production_local_llm_inf.Prelude.{
  ℕ, suc, ◌≤◌, ◌<◌, ◌≡◌, ◌≢◌, refl, ap, ◌∙◌, false, some, List, [], ◌∷◌, String, string_eq, ◌==◌,
  if◌then◌else◌, arith, length, Bool-cases, inl, inr, Option, none, true,
}
use production_local_llm_inf.Prelude.Float.{Float}
use production_local_llm_inf.Prelude.Dict.{
  get, move_to_end, IsDistinct, get-remove, remove-IsDistinct,
}
use production_local_llm_inf.Prelude.Bounded.{
  get-move_to_end, move_to_end-IsDistinct, get-push_self, push-IsDistinct,
}
use production_local_llm_inf.Prelude.Recency.{
  behind, behind-remove-le, behind-move_to_end-le, behind-move_to_end_self, get-push-behind,
  behind-push_self,
}
use production_local_llm_inf.Caching.Store.{
  CacheStore, CachedCompletion, Call, gets, sets, act, fetch, fetch_entry, save, store_after,
  store_after-Mirrors, fetch_entry-fresh,
}

module _ {F : Type 0} ⦃f : Float F⦄ where
  -- The store after a list of calls, the newest first.
  unfoldable pub acted : List (Call F) → CacheStore F → CacheStore F
  unfolding act
  acted [] s = s
  acted (c ∷ cs) s = act c (acted cs s)

  -- No call is a `set` of the key, and every `get` comes before `expires_at`.
  abbrev pub LeaveAlone : String → F → List (Call F) → Type 0
  LeaveAlone key expires_at [] = Unit
  LeaveAlone key expires_at (gets now j ∷ cs) =
      (f.le expires_at now ≡ false) × LeaveAlone key expires_at cs
  LeaveAlone key expires_at (sets now j value ∷ cs) = (j ≢ key) × LeaveAlone key expires_at cs

  -- The store holds the entry, with at most `m` entries used after it.
  record Keeps (key : String) (entry : F × CachedCompletion) (max_entries m : ℕ) (s : CacheStore F)
      : Type 0 where
    size : s.max_entries ≡ max_entries
    distinct : IsDistinct s.entries
    held : get key s.entries ≡ some entry
    recent : behind key s.entries ≤ m

  fetch_entry-Keeps :
      (now : F) (j key : String) (entry : F × CachedCompletion) (max_entries m : ℕ)
      (s : CacheStore F) (o : Option (F × CachedCompletion))
      → get j s.entries ≡ o
      → f.le entry.0 now ≡ false
      → Keeps key entry max_entries m s
      → Keeps key entry max_entries (suc m) (fetch_entry now j s o).0
  unfolding fetch_entry
  fetch_entry-Keeps now j key entry max_entries m s none e early h = record {
    size = h.size;
    distinct = h.distinct;
    held = h.held;
    recent = omega (arith, h.recent);
  }
  fetch_entry-Keeps now j key entry max_entries m s (some (expires_at, value)) e early h =
      elim (Bool-cases (f.le expires_at now)) [
        | inl gone ↦
            rw (gone, if◌then◌else◌)
              (record {
                size = h.size;
                distinct = remove-IsDistinct j s.entries h.distinct;
                held = rw (get-remove j key s.entries h.distinct, other gone) h.held;
                recent = ground (arith, h.recent, behind-remove-le j key s.entries (other gone));
              })
        | inr kept ↦
            rw (kept, if◌then◌else◌)
              (record {
                size = h.size;
                distinct = move_to_end-IsDistinct j s.entries h.distinct;
                held = rw (get-move_to_end j key s.entries h.distinct) h.held;
                recent = moved;
              })
      ]
    where
      other : f.le expires_at now ≡ true → (j == key) ≡ false
      other gone = ground (arith, e, early, gone, h.held, string_eq.beq_iff j key)

      moved : behind key (move_to_end j s.entries) ≤ suc m
      moved = elim (Bool-cases (j == key)) [
        | inl same ↦
            let own = (string_eq.beq_iff j key).0 same in
            rw own (
              let first = behind-move_to_end_self key s.entries h.distinct h.held in
              omega (arith, first))
        | inr differs ↦
            let later = behind-move_to_end-le j key s.entries differs h.distinct h.held in
            omega (arith, later, h.recent)
      ]

  save-Keeps :
      (now : F) (j key : String) (value : CachedCompletion) (entry : F × CachedCompletion)
      (max_entries m : ℕ) (s : CacheStore F)
      → j ≢ key
      → suc m < max_entries
      → Keeps key entry max_entries m s
      → Keeps key entry max_entries (suc m) (save now j value s)
  unfolding save
  save-Keeps now j key value entry max_entries m s differs room h =
      let other : (j == key) ≡ false = ground (arith, differs, string_eq.beq_iff j key) in
      let (held, recent) =
        get-push-behind s.max_entries j key (f.add now s.ttl_seconds, value) s.entries other
          h.distinct h.held (omega (arith, h.recent, h.size, room)) in
      record {
        size = h.size;
        distinct =
            push-IsDistinct s.max_entries j (f.add now s.ttl_seconds, value) s.entries h.distinct;
        held = held;
        recent = omega (arith, recent, h.recent);
      }

  acted-Keeps :
      (key : String) (entry : F × CachedCompletion) (max_entries : ℕ) (cs : List (Call F))
      (s : CacheStore F)
      → LeaveAlone key entry.0 cs
      → length cs < max_entries
      → Keeps key entry max_entries 0 s
      → Keeps key entry max_entries (length cs) (acted cs s)
  unfolding acted act fetch
  acted-Keeps key entry max_entries [] s alone few h = h
  acted-Keeps key entry max_entries (gets now j ∷ cs) s (early, rest) few h =
      let kept = acted-Keeps key entry max_entries cs s rest (omega (arith, few)) h in
      fetch_entry-Keeps now j key entry max_entries (length cs) (acted cs s)
        (get j (acted cs s).entries) refl early kept
  acted-Keeps key entry max_entries (sets now j value ∷ cs) s (differs, rest) few h =
      let kept = acted-Keeps key entry max_entries cs s rest (omega (arith, few)) h in
      save-Keeps now j key value entry max_entries (length cs) (acted cs s) differs
        (omega (arith, few)) kept

  saved-Keeps :
      (max_entries : ℕ) (ttl : F) (cs : List (Call F)) (now : F) (key : String)
      (value : CachedCompletion)
      → 0 < max_entries
      → Keeps key
          (f.add now ttl, value)
          max_entries
          0
          (save now key value (store_after max_entries ttl cs))
  unfolding save store_after act
  saved-Keeps max_entries ttl cs now key value positive =
      let s = store_after max_entries ttl cs in
      let h = store_after-Mirrors max_entries ttl cs in
      let some_room : 0 < s.max_entries = omega (arith, positive, h.size) in
      let entry : F × CachedCompletion = (f.add now s.ttl_seconds, value) in
      let first = behind-push_self s.max_entries key entry s.entries some_room h.distinct in
      record {
        size = h.size;
        distinct = (store_after-Mirrors max_entries ttl (sets now key value ∷ cs)).distinct;
        held =
            get-push_self s.max_entries key entry s.entries some_room h.distinct
            ∙ ap (λ t. some (f.add now t, value)) h.life;
        recent = omega (arith, first);
      }

  -- What was just saved is what the store returns before it expires, after fewer other calls than
  -- its size.
  pub fetch-acted :
      (max_entries : ℕ) (ttl : F) (cs between : List (Call F)) (now later : F) (key : String)
      (value : CachedCompletion)
      → LeaveAlone key (f.add now ttl) between
      → length between < max_entries
      → f.le (f.add now ttl) later ≡ false
      → (fetch later key (acted between (save now key value (store_after max_entries ttl cs)))).1
        ≡ some value
  unfolding fetch
  fetch-acted max_entries ttl cs between now later key value alone few fresh =
      let saved = save now key value (store_after max_entries ttl cs) in
      let s = acted between saved in
      let start = saved-Keeps max_entries ttl cs now key value (omega (arith, few)) in
      let h = acted-Keeps key (f.add now ttl, value) max_entries between saved alone few start in
      fetch_entry-fresh later key s (get key s.entries) h.held fresh
