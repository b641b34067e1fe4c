-- ===== src/Credentials/Refresh.antt =====
-- `RemoteKeys` of src/llm_router/credentials.py under calls and fetches in any order.
use production_local_llm_inf.Prelude.{
  ◌≡◌, refl, ap, ◌∙◌, inl, inr, Bool, true, Option, none, some, List, [], ◌∷◌, String, arith,
  is_empty, if◌then◌else◌, Bool-cases,
}
use production_local_llm_inf.Prelude.Dict.{Dict}
use production_local_llm_inf.Prelude.Float.{Float, IsOrdered}
use production_local_llm_inf.Credentials.Keys.{
  KeyReader, RemoteKeys, parse_key_set, must_refresh, ask, end_fetch, or_held, key_cache_seconds,
  key_refresh_interval_seconds,
}

or_held_lem :
    {K : Type 0} (parsed held : Dict (Option String) K)
    → or_held parsed held ≡ (if is_empty parsed then held else parsed)
or_held_lem [] held = refl
or_held_lem (entry ∷ parsed) held = refl

-- A call of `key` with the clock's two readings, or the end of a fetch.
pub data KeyEvent (F Entry : Type 0) : Type 0 where
  asks : F → F → Option String → KeyEvent F Entry
  ends : Option (List Entry) → KeyEvent F Entry

module _ {F : Type 0} ⦃f : Float F⦄ where
  -- Each fetch is decided no sooner than the interval after the start of the one before it.
  abbrev pub IsSpacedFrom : Option F → List (F × F) → Type 0
  IsSpacedFrom last [] = Unit
  IsSpacedFrom none (fetch ∷ rest) = IsSpacedFrom (some fetch.1) rest
  IsSpacedFrom (some at) (fetch ∷ rest) =
      (f.le key_refresh_interval_seconds (f.sub fetch.0 at) ≡ true)
      × IsSpacedFrom (some fetch.1) rest

module _ {F : Type 0} ⦃f : Float F⦄ {Entry K : Type 0} (reader : KeyReader Entry K) where
  abbrev noted : Bool → F × F → List (F × F) → List (F × F)
  noted fetched readings rest = if fetched then readings ∷ rest else rest

  -- The readings of the clock at each fetch of a run.
  unfoldable pub fetches : List (KeyEvent F Entry) → RemoteKeys K F → List (F × F)
  fetches [] k = []
  fetches (asks now started id ∷ events) k =
      let (after, fetched) = ask reader now started id k in
      noted fetched (now, started) (fetches events after)
  fetches (ends document ∷ events) k = fetches events (end_fetch reader document k)

  unfoldable pub run : List (KeyEvent F Entry) → RemoteKeys K F → RemoteKeys K F
  run [] k = k
  run (asks now started id ∷ events) k = run events (ask reader now started id k).0
  run (ends document ∷ events) k = run events (end_fetch reader document k)

  module _ (laws : IsOrdered F)
      (shorter : f.le key_refresh_interval_seconds key_cache_seconds ≡ true) where
    must_refresh-late :
        (now at : F) (id : Option String) (k : RemoteKeys K F)
        → k.fetched_at ≡ some at
        → must_refresh reader now id k ≡ true
        → f.le key_refresh_interval_seconds (f.sub now at) ≡ true
    unfolding must_refresh
    must_refresh-late now at id k held h =
        ground (arith, laws.le_trans key_refresh_interval_seconds key_cache_seconds (f.sub now at))

    spaced_step :
        (now started : F) (rest : List (F × F)) (last : Option F)
        → ((at : F) → last ≡ some at → f.le key_refresh_interval_seconds (f.sub now at) ≡ true)
        → IsSpacedFrom (some started) rest
        → IsSpacedFrom last ((now, started) ∷ rest)
    spaced_step now started rest none late h = h
    spaced_step now started rest (some at) late h = (late at refl, h)

    -- Whatever calls and ends of fetches follow each other, with any readings of the clock, any keys
    -- asked for and any results, a fetch is only started when the clock shows an age of at least ten
    -- seconds since the start of the fetch before it, where the order is total and ten is at most
    -- three hundred.
    pub fetches-IsSpacedFrom :
        (events : List (KeyEvent F Entry)) (k : RemoteKeys K F)
        → IsSpacedFrom k.fetched_at (fetches events k)
    unfolding fetches end_fetch ask
    fetches-IsSpacedFrom [] k = tt
    fetches-IsSpacedFrom (ends none ∷ events) k = fetches-IsSpacedFrom events k
    fetches-IsSpacedFrom (ends (some document) ∷ events) k =
        fetches-IsSpacedFrom events (end_fetch reader (some document) k)
    fetches-IsSpacedFrom (asks now started id ∷ events) k =
        elim (Bool-cases (must_refresh reader now id k)) [
          | inl due ↦
              rw (ask, due)
                (spaced_step now started _ k.fetched_at
                  (λ at held. must_refresh-late now at id k held due)
                  (fetches-IsSpacedFrom events (record k { fetched_at = some started })))
          | inr fresh ↦ rw (ask, fresh) (fetches-IsSpacedFrom events k)
        ]

  -- The keys of the last document of the run that had a usable one, or else those held before.
  unfoldable pub last_usable :
      List (KeyEvent F Entry) → Dict (Option String) K → Dict (Option String) K
  last_usable [] held = held
  last_usable (asks now started id ∷ events) held = last_usable events held
  last_usable (ends none ∷ events) held = last_usable events held
  last_usable (ends (some document) ∷ events) held =
      last_usable events
        (if is_empty (parse_key_set reader document) then held else parse_key_set reader document)

  keys-ask :
      (now started : F) (id : Option String) (k : RemoteKeys K F)
      → (ask reader now started id k).0.keys ≡ k.keys
  unfolding ask
  keys-ask now started id k = ground arith

  -- After calls and ends of fetches in any order, the keys are those of the last document fetched
  -- that had a usable key, or else those held before: a failed fetch and an empty document change
  -- nothing.
  pub keys-run :
      (events : List (KeyEvent F Entry)) (k : RemoteKeys K F)
      → (run events k).keys ≡ last_usable events k.keys
  unfolding run last_usable end_fetch
  keys-run [] k = refl
  keys-run (asks now started id ∷ events) k =
      keys-run events (ask reader now started id k).0
      ∙ ap (last_usable events) (keys-ask now started id k)
  keys-run (ends none ∷ events) k = keys-run events k
  keys-run (ends (some document) ∷ events) k =
      keys-run events (end_fetch reader (some document) k)
      ∙ ap (last_usable events) (or_held_lem (parse_key_set reader document) k.keys)
