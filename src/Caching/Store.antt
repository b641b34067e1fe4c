-- ===== src/Caching/Store.antt =====
-- `InMemoryCacheStore` of src/llm_router/caching.py. `time.monotonic()` is the argument `now`.
use production_local_llm_inf.Prelude.{
  ℕ, ◌≤◌, ◌<◌, ◌≡◌, refl, false, Option, none, some, List, [], ◌∷◌, String, length, ◌==◌, string_eq,
  if◌then◌else◌, arith, Bool-cases, inl, inr, sym,
}
use production_local_llm_inf.Prelude.Float.{Float}
use production_local_llm_inf.Prelude.Dict.{
  Dict, get, remove, move_to_end, IsDistinct, remove-IsDistinct, get-remove,
}
use production_local_llm_inf.Prelude.Bounded.{
  push, length-push-le, push-IsDistinct, get-push, get-push_self, get-move_to_end,
  move_to_end-IsDistinct,
}

pub record CachedCompletion : Type 0 where
  pub text_ : String
  pub model_id : String
  pub model_revision : String
  pub prompt_tokens : ℕ
  pub completion_tokens : ℕ

pub record CacheStore (F : Type 0) : Type 0 where
  pub max_entries : ℕ
  pub ttl_seconds : F
  pub entries : Dict String (F × CachedCompletion)

module _ {F : Type 0} ⦃f : Float F⦄ where
  unfoldable pub fetch_entry :
      F
      → String
      → CacheStore F
      → Option (F × CachedCompletion)
      → CacheStore F × Option CachedCompletion
  fetch_entry now key s none = (s, none)
  fetch_entry now key s (some (expires_at, value)) =
      if f.le expires_at now
      then (record s { entries = remove key s.entries }, none)
      else (record s { entries = move_to_end key s.entries }, some value)

  -- `get`.
  unfoldable pub fetch : F → String → CacheStore F → CacheStore F × Option CachedCompletion
  unfolding fetch_entry
  fetch now key s = fetch_entry now key s (get key s.entries)

  -- `set`.
  unfoldable pub save : F → String → CachedCompletion → CacheStore F → CacheStore F
  unfolding push
  save now key value s = record s {
    entries = push s.max_entries key (f.add now s.ttl_seconds, value) s.entries;
  }

-- A call of the store, and its time.
pub data Call (F : Type 0) : Type 0 where
  gets : F → String → Call F
  sets : F → String → CachedCompletion → Call F

module _ {F : Type 0} ⦃f : Float F⦄ where
  -- What the newest `set` of a key wrote, with its expiry, in a history with the newest call first.
  unfoldable pub written : F → String → List (Call F) → Option (F × CachedCompletion)
  written ttl key [] = none
  written ttl key (gets now j ∷ cs) = written ttl key cs
  written ttl key (sets now j value ∷ cs) =
      if j == key then some (f.add now ttl, value) else written ttl key cs

  unfoldable pub act : Call F → CacheStore F → CacheStore F
  unfolding fetch save
  act (gets now key) s = (fetch now key s).0
  act (sets now key value) s = save now key value s

  unfoldable pub new_store : ℕ → F → CacheStore F
  new_store max_entries ttl = record { max_entries = max_entries; ttl_seconds = ttl; entries = [] }

  unfoldable pub store_after : ℕ → F → List (Call F) → CacheStore F
  unfolding act new_store
  store_after max_entries ttl [] = new_store max_entries ttl
  store_after max_entries ttl (c ∷ cs) = act c (store_after max_entries ttl cs)

  pub record Mirrors (max_entries : ℕ) (ttl : F) (cs : List (Call F)) (s : CacheStore F)
      : Type 0 where
    pub size : s.max_entries ≡ max_entries
    pub life : s.ttl_seconds ≡ ttl
    pub distinct : IsDistinct s.entries
    pub held :
        (key : String) {e : F × CachedCompletion}
        → get key s.entries ≡ some e
        → written ttl key cs ≡ some e

  fetch-Mirrors :
      (max_entries : ℕ) (ttl : F) (cs : List (Call F)) (now : F) (key : String) (s : CacheStore F)
      (o : Option (F × CachedCompletion))
      → Mirrors max_entries ttl cs s
      → Mirrors max_entries ttl (gets now key ∷ cs) (fetch_entry now key s o).0
  unfolding fetch_entry written
  fetch-Mirrors max_entries ttl cs now key s none h = record {
    size = h.size;
    life = h.life;
    distinct = h.distinct;
    held = h.held;
  }
  fetch-Mirrors max_entries ttl cs now key s (some (expires_at, value)) h =
      elim (Bool-cases (f.le expires_at now)) [
        | inl gone ↦
            rw (gone, if◌then◌else◌)
              (record {
                size = h.size;
                life = h.life;
                distinct = remove-IsDistinct key s.entries h.distinct;
                held = λ j p. h.held j (left j (rw (get-remove key j s.entries h.distinct) at p));
              })
        | inr kept ↦
            rw (kept, if◌then◌else◌)
              (record {
                size = h.size;
                life = h.life;
                distinct = move_to_end-IsDistinct key s.entries h.distinct;
                held = λ j p. h.held j (rw (get-move_to_end key j s.entries h.distinct) at p);
              })
      ]
    where
      left :
          (j : String) {e : F × CachedCompletion}
          → (if key == j then none else get j s.entries) ≡ some e
          → get j s.entries ≡ some e
      left j p = ground arith

  save-Mirrors :
      (max_entries : ℕ) (ttl : F) (cs : List (Call F)) (now : F) (key : String)
      (value : CachedCompletion) (s : CacheStore F)
      → Mirrors max_entries ttl cs s
      → Mirrors max_entries ttl (sets now key value ∷ cs) (save now key value s)
  unfolding save written
  save-Mirrors max_entries ttl cs now key value s h = record {
    size = h.size;
    life = h.life;
    distinct =
        push-IsDistinct s.max_entries key (f.add now s.ttl_seconds, value) s.entries h.distinct;
    held = λ j p.
        newest j
          (get-push s.max_entries key j (f.add now s.ttl_seconds, value) s.entries h.distinct p);
  }
    where
      newest :
          (j : String) {e : F × CachedCompletion}
          → (if key == j then some (f.add now s.ttl_seconds, value) else get j s.entries) ≡ some e
          → (if key == j then some (f.add now ttl, value) else written ttl j cs) ≡ some e
      newest j p = elim (Bool-cases (key == j)) [
        | inl same ↦ rw (same, sym h.life) (rw same at p)
        | inr other ↦ rw other (h.held j (rw other at p))
      ]

  pub store_after-Mirrors :
      (max_entries : ℕ) (ttl : F) (cs : List (Call F))
      → Mirrors max_entries ttl cs (store_after max_entries ttl cs)
  unfolding store_after act new_store fetch get written
  store_after-Mirrors max_entries ttl [] = record {
    size = refl;
    life = refl;
    distinct = tt;
    held = λ key p. cc;
  }
  store_after-Mirrors max_entries ttl (gets now key ∷ cs) =
      let s = store_after max_entries ttl cs in
      fetch-Mirrors max_entries ttl cs now key s (get key s.entries)
        (store_after-Mirrors max_entries ttl cs)
  store_after-Mirrors max_entries ttl (sets now key value ∷ cs) =
      save-Mirrors max_entries ttl cs now key value (store_after max_entries ttl cs)
        (store_after-Mirrors max_entries ttl cs)

  fetch_entry-some :
      (now : F) (key : String) (s : CacheStore F) (o : Option (F × CachedCompletion))
      {value : CachedCompletion}
      → (fetch_entry now key s o).1 ≡ some value
      → (expires_at : F) × (o ≡ some (expires_at, value)) × (f.le expires_at now ≡ false)
  unfolding fetch_entry
  fetch_entry-some now key s none h = cc
  fetch_entry-some now key s (some (expires_at, v)) {value} h =
      (expires_at, ground arith, ground arith)

  -- Whatever the calls before it, a value that the store returns is the one that the newest `set`
  -- of that key wrote, and it has not expired.
  pub fetch-store_after :
      (max_entries : ℕ) (ttl : F) (cs : List (Call F)) (now : F) (key : String)
      {value : CachedCompletion}
      → (fetch now key (store_after max_entries ttl cs)).1 ≡ some value
      → (expires_at : F) × (written ttl key cs ≡ some (expires_at, value))
        × (f.le expires_at now ≡ false)
  unfolding fetch
  fetch-store_after max_entries ttl cs now key h =
      let s = store_after max_entries ttl cs in
      let (expires_at, found, fresh) = fetch_entry-some now key s (get key s.entries) h in
      (expires_at, (store_after-Mirrors max_entries ttl cs).held key found, fresh)

  pub fetch_entry-fresh :
      (now : F) (key : String) (s : CacheStore F) (o : Option (F × CachedCompletion))
      {expires_at : F} {value : CachedCompletion}
      → o ≡ some (expires_at, value)
      → f.le expires_at now ≡ false
      → (fetch_entry now key s o).1 ≡ some value
  unfolding fetch_entry
  fetch_entry-fresh now key s none p h = cc
  fetch_entry-fresh now key s (some (expires_at, v)) p h = ground arith

  -- A store of a positive size returns what was just saved, at any time before it expires, and is
  -- never above its size.
  pub fetch-save :
      (max_entries : ℕ) (ttl : F) (cs : List (Call F)) (now later : F) (key : String)
      (value : CachedCompletion)
      → 0 < max_entries
      → f.le (f.add now ttl) later ≡ false
      → ((fetch later key (store_after max_entries ttl (sets now key value ∷ cs))).1 ≡ some value)
        × (length (store_after max_entries ttl (sets now key value ∷ cs)).entries ≤ max_entries)
  unfolding fetch store_after act save
  fetch-save max_entries ttl cs now later key value positive fresh =
      let s = store_after max_entries ttl cs in
      let h = store_after-Mirrors max_entries ttl cs in
      let found =
        get-push_self s.max_entries key (f.add now s.ttl_seconds, value) s.entries
          (omega (arith, positive, h.size)) h.distinct in
      (
        fetch_entry-fresh later key (save now key value s) (get key (save now key value s).entries)
            found (rw h.life fresh),
        omega (
          arith,
          h.size,
          length-push-le s.max_entries key (f.add now s.ttl_seconds, value) s.entries,
        ),
      )
