-- ===== src/Tests/Keyrings.antt =====
-- An issuer's keys, where an entry of a document is the name of its key.
use production_local_llm_inf.Prelude.{◌≡◌, refl, none, some, List, [], ◌∷◌, String}
use production_local_llm_inf.Prelude.Int.{ℤ, pos}
use production_local_llm_inf.Prelude.Float.{milli_float, Milli-IsOrdered}
use production_local_llm_inf.Credentials.Keys.{KeyReader, RemoteKeys}
use production_local_llm_inf.Credentials.Refresh.{
  KeyEvent, asks, ends, fetches, run, last_usable, IsSpacedFrom, fetches-IsSpacedFrom, keys-run,
}

abbrev reader : KeyReader String String
reader = record { key_id = λ entry. some entry; from_dict = λ entry. some entry }

-- Two fetches, the second after a rotation, and a third that fails.
abbrev events : List (KeyEvent ℤ String)
events =
    asks (pos 1000) (pos 1001) (some "k1")
    ∷ ends (some ("k1" ∷ []))
    ∷ asks (pos 5000) (pos 5001) (some "k2")
    ∷ asks (pos 12000) (pos 12001) (some "k2")
    ∷ ends (some ("k2" ∷ []))
    ∷ asks (pos 400000) (pos 400001) (some "k2")
    ∷ ends none
    ∷ []

abbrev fresh : RemoteKeys String ℤ
fresh = record { keys = []; fetched_at = none }

keys-run_example : (run reader events fresh).keys ≡ last_usable reader events []
keys-run_example = keys-run reader events fresh

fetches-IsSpacedFrom_example : IsSpacedFrom none (fetches reader events fresh)
fetches-IsSpacedFrom_example = fetches-IsSpacedFrom reader Milli-IsOrdered refl events fresh
