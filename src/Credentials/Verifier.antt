-- ===== src/Credentials/Verifier.antt =====
-- `TokenVerifier` of src/llm_router/credentials.py. The library PyJWT is the record Jwt, and a source of
-- keys is what its `key` answers; the times of a token are naturals.
use production_local_llm_inf.Prelude.{
  ℕ, ◌+◌, ◌≤◌, ◌≡◌, ◌≢◌, Option, none, some, String, List, [], ◌∷◌, ◌∈◌, elem, ltb, ◌==◌, string_eq,
  if◌then◌else◌,
}
use production_local_llm_inf.Prelude.Result.{Result, ok, raise}

pub record Header : Type 0 where
  pub algorithm : Option String
  pub key_id : Option String

-- The value of a claim: a text, or anything else.
pub data ClaimValue : Type 0 where
  text_claim : String → ClaimValue
  other_claim : ClaimValue

pub record Claims : Type 0 where
  pub subject : String
  pub issued_at : ℕ
  pub expires_at : ℕ
  pub named : String → Option ClaimValue

pub data JwtFailure : Type 0 where
  expired_signature other_failure : JwtFailure

-- `get_unverified_header`, with `none` for its exception, and `decode` with the verifier's leeway and
-- the three claims that it requires.
pub record Jwt (Key : Type 0) : Type 0 where
  pub unverified_header : String → Option Header
  pub decode : String → Key → String → String → String → Result JwtFailure Claims

pub record TokenVerifier (Key : Type 0) : Type 0 where
  pub issuer : String
  pub audience : String
  pub key : Option String → Option Key
  pub max_lifetime_seconds : ℕ
  pub tenant_claim : String

pub record VerifiedToken : Type 0 where
  pub subject : String
  pub tenant_id : String
  pub issued_at : ℕ
  pub expires_at : ℕ

pub data CredentialError : Type 0 where
  malformed unaccepted_algorithm unknown_key expired failed_verification nameless : CredentialError
  lives_too_long : ℕ → CredentialError

abbrev pub allowed_algorithms : List String
allowed_algorithms = "RS256" ∷ "RS384" ∷ "RS512" ∷ "ES256" ∷ "ES384" ∷ "PS256" ∷ []

module _ {Key : Type 0} (jwt : Jwt Key) (v : TokenVerifier Key) where
  unfoldable pub with_tenant : Claims → Option ClaimValue → Result CredentialError VerifiedToken
  with_tenant claims none = raise nameless
  with_tenant claims (some other_claim) = raise nameless
  with_tenant claims (some (text_claim tenant)) =
      if tenant == ""
      then raise nameless
      else ok (record {
        subject = claims.subject;
        tenant_id = tenant;
        issued_at = claims.issued_at;
        expires_at = claims.expires_at;
      })

  unfoldable pub with_claims : Result JwtFailure Claims → Result CredentialError VerifiedToken
  unfolding with_tenant
  with_claims (raise expired_signature) = raise expired
  with_claims (raise other_failure) = raise failed_verification
  with_claims (ok claims) =
      if ltb (claims.issued_at + v.max_lifetime_seconds) claims.expires_at
      then raise (lives_too_long v.max_lifetime_seconds)
      else with_tenant claims (claims.named v.tenant_claim)

  unfoldable pub with_key : String → String → Option Key → Result CredentialError VerifiedToken
  unfolding with_claims
  with_key token algorithm none = raise unknown_key
  with_key token algorithm (some key) =
      with_claims (jwt.decode token key algorithm v.audience v.issuer)

  unfoldable pub with_algorithm :
      String → Header → Option String → Result CredentialError VerifiedToken
  unfolding with_key
  with_algorithm token header none = raise unaccepted_algorithm
  with_algorithm token header (some algorithm) =
      if elem algorithm allowed_algorithms
      then with_key token algorithm (v.key header.key_id)
      else raise unaccepted_algorithm

  unfoldable pub with_header : String → Option Header → Result CredentialError VerifiedToken
  unfolding with_algorithm
  with_header token none = raise malformed
  with_header token (some header) = with_algorithm token header header.algorithm

  unfoldable pub verify : String → Result CredentialError VerifiedToken
  unfolding with_header
  verify token = with_header token (jwt.unverified_header token)

  -- What stands behind a token that is accepted.
  pub record IsVouched (token : String) (r : VerifiedToken) : Type 0 where
    pub header : Header
    pub algorithm : String
    pub key : Key
    pub claims : Claims
    pub readable : jwt.unverified_header token ≡ some header
    pub signed_with : header.algorithm ≡ some algorithm
    pub accepted_algorithm : algorithm ∈ allowed_algorithms
    pub known_key : v.key header.key_id ≡ some key
    pub decoded : jwt.decode token key algorithm v.audience v.issuer ≡ ok claims
    pub short_lived : claims.expires_at ≤ claims.issued_at + v.max_lifetime_seconds
    pub names_tenant : claims.named v.tenant_claim ≡ some (text_claim r.tenant_id)
    pub not_empty : r.tenant_id ≢ ""
    pub same_subject : r.subject ≡ claims.subject
    pub same_expiry : r.expires_at ≡ claims.expires_at
