-- ===== src/Credentials/Caller.antt =====
-- `authenticate` of src/llm_router/app.py. `sha256` is the hexadecimal digest of a text.
use production_local_llm_inf.Prelude.{
  Bool, Option, none, some, [], ◌∷◌, String, ◌==◌, ◌&&◌, string_eq, nat_beq, if◌then◌else◌, concat,
}
use production_local_llm_inf.Prelude.Dict.{Dict}
use production_local_llm_inf.Prelude.Result.{Result, ok, raise, ◌>>=◌}
use production_local_llm_inf.Prelude.Text.{starts_with, removeprefix, count_char, is_ascii}
use production_local_llm_inf.Credentials.Verifier.{
  Jwt, TokenVerifier, VerifiedToken, CredentialError, verify,
}

pub record Principal : Type 0 where
  pub tenant_id : String
  pub credential_fingerprint : String

-- The details of the 401, and the TypeError of `compare_digest`, which ends the request with a 500.
pub data Refusal : Type 0 where
  missing_token static_not_accepted invalid_token not_ascii : Refusal
  refused_token : CredentialError → Refusal

-- The number of "." in it is 2.
unfoldable pub looks_like_a_token : String → Bool
looks_like_a_token credential = nat_beq (count_char 46 credential) 2

-- `secrets.compare_digest` of two texts, which must be ASCII.
unfoldable pub compare_digest : String → String → Result Refusal Bool
compare_digest token candidate =
    if is_ascii token && is_ascii candidate then ok (token == candidate) else raise not_ascii

-- The loop over `tenant_by_key`: the last match, if any.
unfoldable pub match_key :
    String → Option String → Dict String String → Result Refusal (Option String)
unfolding compare_digest
match_key token matched [] = ok matched
match_key token matched ((candidate, tenant_id) ∷ rest) = compare_digest token candidate >>= λ same.
    match_key token (if same then some tenant_id else matched) rest

module _ {Key : Type 0} (jwt : Jwt Key) (sha256 : String → String) where
  unfoldable pub by_token :
      TokenVerifier Key → Result CredentialError VerifiedToken → Result Refusal Principal
  by_token v (raise error) = raise (refused_token error)
  by_token v (ok verified) = ok (record {
    tenant_id = verified.tenant_id;
    credential_fingerprint = sha256 (concat v.issuer (concat "|" verified.subject));
  })

  unfoldable pub by_match : String → Option String → Result Refusal Principal
  by_match token none = raise invalid_token
  by_match token (some tenant_id) =
      ok (record { tenant_id = tenant_id; credential_fingerprint = sha256 token })

  unfoldable pub by_key : Bool → Dict String String → String → Result Refusal Principal
  unfolding by_match match_key
  by_key require_short_lived tenant_by_key token =
      if require_short_lived
      then raise static_not_accepted
      else match_key token none tenant_by_key >>= by_match token

  unfoldable pub with_token :
      Option (TokenVerifier Key) → Bool → Dict String String → String → Result Refusal Principal
  unfolding by_token by_key looks_like_a_token
  with_token none require_short_lived tenant_by_key token =
      by_key require_short_lived tenant_by_key token
  with_token (some v) require_short_lived tenant_by_key token =
      if looks_like_a_token token
      then by_token v (verify jwt v token)
      else by_key require_short_lived tenant_by_key token

  unfoldable pub authenticate :
      Option (TokenVerifier Key)
      → Bool
      → Dict String String
      → Option String
      → Result Refusal Principal
  unfolding with_token
  authenticate verifier require_short_lived tenant_by_key none = raise missing_token
  authenticate verifier require_short_lived tenant_by_key (some authorization) =
      if starts_with authorization "Bearer "
      then with_token verifier require_short_lived tenant_by_key
          (removeprefix "Bearer " authorization)
      else raise missing_token
