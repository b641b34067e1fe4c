-- ===== src/Credentials/Accepted.antt =====
-- What `TokenVerifier.verify` of src/llm_router/credentials.py and `authenticate` of src/llm_router/app.py
-- let through.
use production_local_llm_inf.Prelude.{
  ◌+◌, ◌≤◌, ◌≡◌, ◌≢◌, refl, inl, inr, Option, none, some, String, ◌∈◌, elem, elem_iff, string_eq,
  arith, Bool-cases,
}
use production_local_llm_inf.Prelude.Result.{Result, ok, raise}
use production_local_llm_inf.Credentials.Verifier.{
  Header, Claims, ClaimValue, text_claim, other_claim, JwtFailure, expired_signature, other_failure,
  Jwt, TokenVerifier, VerifiedToken, allowed_algorithms, with_tenant, with_claims, with_key,
  with_algorithm, with_header, verify, IsVouched,
}

module _ {Key : Type 0} (jwt : Jwt Key) (v : TokenVerifier Key) where
  with_tenant-ok :
      (claims : Claims) (o : Option ClaimValue) (r : VerifiedToken)
      → with_tenant jwt v claims o ≡ ok r
      → (o ≡ some (text_claim r.tenant_id))
        × (r.tenant_id ≢ "")
        × (r.subject ≡ claims.subject)
        × (r.expires_at ≡ claims.expires_at)
  unfolding with_tenant
  with_tenant-ok claims none r e = ground arith
  with_tenant-ok claims (some other_claim) r e = ground arith
  with_tenant-ok claims (some (text_claim tenant)) r e = ground (arith, string_eq.beq_iff tenant "")

  with_claims-ok :
      (answer : Result JwtFailure Claims) (r : VerifiedToken)
      → with_claims jwt v answer ≡ ok r
      → (claims : Claims) × (answer ≡ ok claims)
        × (claims.expires_at ≤ claims.issued_at + v.max_lifetime_seconds)
        × (with_tenant jwt v claims (claims.named v.tenant_claim) ≡ ok r)
  unfolding with_claims
  with_claims-ok (raise expired_signature) r e = ground arith
  with_claims-ok (raise other_failure) r e = ground arith
  with_claims-ok (ok claims) r e = (claims, refl, ground arith, ground arith)

  with_key-ok :
      (token algorithm : String) (o : Option Key) (r : VerifiedToken)
      → with_key jwt v token algorithm o ≡ ok r
      → (key : Key) × (o ≡ some key)
        × (with_claims jwt v (jwt.decode token key algorithm v.audience v.issuer) ≡ ok r)
  unfolding with_key
  with_key-ok token algorithm none r e = ground arith
  with_key-ok token algorithm (some key) r e = (key, refl, e)

  with_algorithm-ok :
      (token : String) (header : Header) (o : Option String) (r : VerifiedToken)
      → with_algorithm jwt v token header o ≡ ok r
      → (algorithm : String) × (o ≡ some algorithm)
        × (algorithm ∈ allowed_algorithms)
        × (with_key jwt v token algorithm (v.key header.key_id) ≡ ok r)
  unfolding with_algorithm
  with_algorithm-ok token header none r e = ground arith
  with_algorithm-ok token header (some algorithm) r e =
      elim (Bool-cases (elem algorithm allowed_algorithms)) [
        | inl h ↦ (algorithm, refl, (elem_iff algorithm allowed_algorithms).0 h, ground arith)
        | inr h ↦ ground arith
      ]

  with_header-ok :
      (token : String) (o : Option Header) (r : VerifiedToken)
      → with_header jwt v token o ≡ ok r
      → (header : Header) × (o ≡ some header)
        × (with_algorithm jwt v token header header.algorithm ≡ ok r)
  unfolding with_header
  with_header-ok token none r e = ground arith
  with_header-ok token (some header) r e = (header, refl, e)

  -- A token that is verified can be read, is signed with an accepted algorithm by a key that the
  -- source knows, decodes under that key for the gateway's audience and issuer, lives no longer than
  -- the limit, and names a tenant that is not empty; the answer has that tenant, and the subject and
  -- the expiry of its claims.
  pub verify-IsVouched :
      (token : String) (r : VerifiedToken) → verify jwt v token ≡ ok r → IsVouched jwt v token r
  unfolding verify
  verify-IsVouched token r e =
      let (header, readable, e1) = with_header-ok token (jwt.unverified_header token) r e in
      let (algorithm, signed_with, accepted, e2) =
        with_algorithm-ok token header header.algorithm r e1 in
      let (key, known, e3) = with_key-ok token algorithm (v.key header.key_id) r e2 in
      let (claims, decoded, short, e4) =
        with_claims-ok (jwt.decode token key algorithm v.audience v.issuer) r e3 in
      let (names, not_empty, subject, expiry) =
        with_tenant-ok claims (claims.named v.tenant_claim) r e4 in
      record {
        header = header;
        algorithm = algorithm;
        key = key;
        claims = claims;
        readable = readable;
        signed_with = signed_with;
        accepted_algorithm = accepted;
        known_key = known;
        decoded = decoded;
        short_lived = short;
        names_tenant = names;
        not_empty = not_empty;
        same_subject = subject;
        same_expiry = expiry;
      }
