-- ===== src/Credentials/Keys.antt =====
-- src/llm_router/credentials.py: `_parse_key_set`, `StaticKeys` and `RemoteKeys`. A key set document
-- is the list of its entries; what an entry says is read by PyJWT, a parameter.
use production_local_llm_inf.Prelude.{
  Bool, true, false, ◌&&◌, ◌||◌, Option, none, some, List, [], ◌∷◌, String, string_eq, option_eq,
  is_none, is_empty, if◌then◌else◌,
}
use production_local_llm_inf.Prelude.Dict.{Dict, get, put}
use production_local_llm_inf.Prelude.Float.{Float}
use production_local_llm_inf.Prelude.Result.{Result, ok, raise}

-- What `PyJWK.from_dict` and the entry's `kid` give.
pub record KeyReader (Entry K : Type 0) : Type 0 where
  pub key_id : Entry → Option String
  pub from_dict : Entry → Option K

module _ {Entry K : Type 0} (reader : KeyReader Entry K) where
  abbrev keep_parsed : Option String → Option K → Dict (Option String) K → Dict (Option String) K
  keep_parsed id none keys = keys
  keep_parsed id (some parsed) keys = put id parsed keys

  unfoldable parse_entries : List Entry → Dict (Option String) K → Dict (Option String) K
  parse_entries [] keys = keys
  parse_entries (entry ∷ entries) keys =
      parse_entries entries (keep_parsed (reader.key_id entry) (reader.from_dict entry) keys)

  unfoldable pub parse_key_set : List Entry → Dict (Option String) K
  unfolding parse_entries
  parse_key_set entries = parse_entries entries []

-- The ValueError of `StaticKeys`.
pub data KeyError : Type 0 where
  no_usable_key : KeyError

-- `StaticKeys`: the keys of the document, and the only one for a token that names none.
module _ {Entry K : Type 0} (reader : KeyReader Entry K) where
  unfoldable pub static_keys : List Entry → Result KeyError (Dict (Option String) K)
  static_keys document =
      let keys = parse_key_set reader document in
      if is_empty keys then raise no_usable_key else ok keys

unfoldable pub static_key : {K : Type 0} → Option String → Dict (Option String) K → Option K
static_key none (entry ∷ []) = some entry.1
static_key id keys = get id keys

pub record RemoteKeys (K F : Type 0) : Type 0 where
  pub keys : Dict (Option String) K
  pub fetched_at : Option F

abbrev pub or_held :
    {K : Type 0} → Dict (Option String) K → Dict (Option String) K → Dict (Option String) K
or_held [] held = held
or_held (entry ∷ parsed) held = entry ∷ parsed

module _ {F : Type 0} ⦃f : Float F⦄ where
  abbrev pub key_cache_seconds : F
  key_cache_seconds = f.ratio 300 1

  abbrev pub key_refresh_interval_seconds : F
  key_refresh_interval_seconds = f.ratio 10 1

  module _ {Entry K : Type 0} (reader : KeyReader Entry K) where
    abbrev pub new_keys : RemoteKeys K F
    new_keys = record { keys = []; fetched_at = none }

    -- Whether `key` fetches: `now` is the clock's reading that gives the age.
    unfoldable pub must_refresh : F → Option String → RemoteKeys K F → Bool
    must_refresh now id k = elim k.fetched_at [
      | none ↦ true
      | some at ↦
          f.le key_cache_seconds (f.sub now at)
          || (is_none (get id k.keys) && f.le key_refresh_interval_seconds (f.sub now at))
    ]

    -- `key` up to the wait for a fetch, with whether there is one; `started` is `_refresh`'s reading.
    unfoldable pub ask : F → F → Option String → RemoteKeys K F → RemoteKeys K F × Bool
    unfolding must_refresh
    ask now started id k =
        if must_refresh now id k then (record k { fetched_at = some started }, true) else (k, false)

    -- A fetch that a call waits for ends, with a document or an exception.
    unfoldable pub end_fetch : Option (List Entry) → RemoteKeys K F → RemoteKeys K F
    end_fetch none k = k
    end_fetch (some document) k = record k { keys = or_held (parse_key_set reader document) k.keys }

    -- What `key` returns, once no fetch is waited for.
    abbrev pub held_key : Option String → RemoteKeys K F → Option K
    held_key id k = get id k.keys
