-- ===== src/Auth/Authentic.antt =====
-- src/auth/auth.service.ts: what an accepted Authorization header has established.
use Prim.Native.Char.{Char, char, code}
use text.Mathlib.TextLemmas.{nil-append, cons-append}
use text.Mathlib.TextEquality.{Char-path}
use zt_access_gateway.Common.{
  String, ◌≡◌, refl, sym, ap, ◌∙◌, ◌≢◌, ◌⊎◌, inl, inr, false, Option, none, some, arith, ◌==◌,
  eq_iff, concat, nat_eq, Bool-cases, Option-cases,
}
use zt_access_gateway.Gateway.{ok}
use zt_access_gateway.Request.{UserClaims, trim}
use zt_access_gateway.Auth.{
  JwtPayload, JoseError, Attempt, Key, Jose, AuthConfig, non_empty, split_space, second_part,
  is_mfa, extract_claims, options, verify_asymmetric, verify_by_alg, validate_token, authenticate,
  returns, throws, symmetric_secret, remote_jwks, accepted,
}

-- The text is its parts, joined by a space.
abbrev joined : String × Option String → String
joined (a, none) = a
joined (a, some b) = concat a (concat " " b)

Attempt-cases :
    {A : Type 0} (r : Attempt A) → ((a : A) × (r ≡ returns a)) ⊎ ((e : JoseError) × (r ≡ throws e))
Attempt-cases (returns a) = inl (a, refl)
Attempt-cases (throws e) = inr (e, refl)

joined-cons :
    (c : Char) (r : String × Option String)
    → joined (String.◌∷◌ c r.0, r.1) ≡ String.◌∷◌ c (joined r)
joined-cons c (a, none) = refl
joined-cons c (a, some b) = rw cons-append refl

split_space-joined : (s : String) → joined (split_space s) ≡ s
unfolding split_space
split_space-joined String.[] = refl
split_space-joined (String.◌∷◌ c s) = elim (Bool-cases (nat_eq (code c) b' ')) [
  | inl space ↦
      rw (space, nil-append, cons-append, Char-path c (char 32 tt) (ground arith), nil-append) refl
  | inr other ↦ rw (other, joined-cons c (split_space s), split_space-joined s) refl
]

split_bearer :
    (raw : String) {name rest : String}
    → (split_space raw).0 ≡ name
    → (split_space raw).1 ≡ some rest
    → raw ≡ joined (name, some (joined (split_space rest)))
split_bearer raw {name} {rest} head tail =
    let whole : joined (split_space raw) ≡ joined (name, some rest) = rw (head, tail) refl in
    sym (split_space-joined raw)
    ∙ whole
    ∙ ap (λ r. joined (name, some r)) (sym (split_space-joined rest))

-- A device id of white space only is no device id.
extract_claims-device :
    (payload : JwtPayload) {claims : UserClaims}
    → extract_claims payload ≡ accepted claims
    → trim claims.device_id ≢ ""
unfolding extract_claims
extract_claims-device payload {claims} h e = elim (Option-cases payload.device_id) [
  | inl absent ↦ absurd (ground arith)
  | inr (d, found) ↦ ground (arith, eq_iff (trim d) "")
]

module _ (jose : Jose) (cfg : AuthConfig) where
  -- The key that a token of the algorithm may be checked under: the shared secret for HS256 only,
  -- and a public key or the remote keys for RS256 and ES256 only.
  pub data KeyFor (alg : String) : Key → Type 0 where
    symmetric : alg ≡ "HS256" → KeyFor alg (symmetric_secret cfg.jwt_secret)
    imported :
        (alg ≡ "RS256") ⊎ (alg ≡ "ES256")
        → (pem : String) → non_empty cfg.jwt_public_key ≡ some pem
        → (key : Key) → jose.import_spki pem alg ≡ returns key
        → KeyFor alg key
    remote :
        (alg ≡ "RS256") ⊎ (alg ≡ "ES256")
        → (uri : String) → non_empty cfg.jwt_public_key ≡ none
        → non_empty cfg.jwks_uri ≡ some uri
        → KeyFor alg (remote_jwks uri)

  pub record IsVerified (jwt : String) (payload : JwtPayload) : Type 0 where
    pub alg : String
    pub key : Key
    pub headed : jose.decode_protected_header jwt ≡ returns alg
    pub keyed : KeyFor alg key
    pub signed : jose.jwt_verify jwt key (options jose cfg) ≡ returns payload

  pub record IsAuthentic (raw : String) (claims : UserClaims) : Type 0 where
    pub jwt : String
    pub junk : Option String
    pub bearer : raw ≡ joined ("Bearer", some (joined (jwt, junk)))
    pub present : jwt ≢ ""
    pub payload : JwtPayload
    pub verified : IsVerified jwt payload
    pub access : is_mfa payload.typ ≡ false
    pub extracted : extract_claims payload ≡ accepted claims
    pub bound : trim claims.device_id ≢ ""

  asymmetric_key :
      (jwt alg : String) (payload : JwtPayload)
      → (alg ≡ "RS256") ⊎ (alg ≡ "ES256")
      → verify_asymmetric jose cfg jwt alg ≡ returns payload
      → (key : Key) × KeyFor alg key
        × (jose.jwt_verify jwt key (options jose cfg) ≡ returns payload)
  unfolding verify_asymmetric
  asymmetric_key jwt alg payload which h = elim (Option-cases (non_empty cfg.jwt_public_key)) [
    | inl unset ↦ elim (Option-cases (non_empty cfg.jwks_uri)) [
      | inl no_uri ↦ absurd (ground arith)
      | inr (uri, set_uri) ↦ (remote_jwks uri, remote which uri unset set_uri, ground arith)
    ]
    | inr (pem, set_pem) ↦ elim (Attempt-cases (jose.import_spki pem alg)) [
      | inl (key, read) ↦ (key, imported which pem set_pem key read, ground arith)
      | inr (e, bad) ↦ absurd (ground arith)
    ]
  ]

  routed_key :
      (jwt alg : String) (payload : JwtPayload)
      → verify_by_alg jose cfg jwt alg ≡ returns payload
      → (key : Key) × KeyFor alg key
        × (jose.jwt_verify jwt key (options jose cfg) ≡ returns payload)
  unfolding verify_by_alg
  routed_key jwt alg payload h = elim (Bool-cases (alg == "HS256")) [
    | inl hs ↦ (
      symmetric_secret cfg.jwt_secret,
      symmetric (ground (arith, eq_iff alg "HS256")),
      ground arith,
    )
    | inr other ↦ elim (Bool-cases (alg == "RS256")) [
      | inl rs ↦
          asymmetric_key jwt alg payload (inl (ground (arith, eq_iff alg "RS256"))) (ground arith)
      | inr other' ↦ elim (Bool-cases (alg == "ES256")) [
        | inl es ↦
            asymmetric_key jwt alg payload (inr (ground (arith, eq_iff alg "ES256"))) (ground arith)
        | inr none_left ↦ absurd (ground arith)
      ]
    ]
  ]

  validate_token-accepted :
      (jwt : String) {claims : UserClaims}
      → validate_token jose cfg jwt ≡ accepted claims
      → (payload : JwtPayload) × IsVerified jwt payload
        × (is_mfa payload.typ ≡ false)
        × (extract_claims payload ≡ accepted claims)
  unfolding validate_token
  validate_token-accepted jwt {claims} h = elim (Attempt-cases (jose.decode_protected_header jwt)) [
    | inr (e, bad) ↦ absurd (ground arith)
    | inl (alg, headed) ↦ elim (Attempt-cases (verify_by_alg jose cfg jwt alg)) [
      | inr (e, bad) ↦ absurd (ground arith)
      | inl (payload, good) ↦
          let (key, keyed, signed) = routed_key jwt alg payload good in
          (
            payload,
            record { alg = alg; key = key; headed = headed; keyed = keyed; signed = signed },
            ground arith,
            ground arith,
          )
    ]
  ]

  -- An accepted header is "Bearer", a space and a token, up to a further space. The token's
  -- signature was checked under a key that its algorithm allows: the shared secret for HS256, the
  -- public key or the remote keys for RS256 and ES256, and nothing for any other. It is not an MFA
  -- token, and the user's claims are those of the checked payload, with a device id that is not
  -- blank.
  pub authenticate-IsAuthentic :
      (raw : String) {claims : UserClaims}
      → authenticate jose cfg (some raw) ≡ ok claims
      → IsAuthentic raw claims
  unfolding authenticate
  authenticate-IsAuthentic raw {claims} h = elim (Option-cases (split_space raw).1) [
    | inl absent ↦
        absurd (ground (arith, ap second_part absent, eq_iff (second_part (split_space raw).1) ""))
    | inr (rest, found) ↦
        let same : second_part (split_space raw).1 ≡ (split_space rest).0 = ap second_part found in
        let (payload, verified, access, extracted) =
          validate_token-accepted (split_space rest).0 {claims = claims} (ground arith) in
        let scheme_is : (split_space raw).0 ≡ "Bearer" =
          ground (arith, eq_iff (split_space raw).0 "Bearer") in
        record {
          jwt = (split_space rest).0;
          junk = (split_space rest).1;
          bearer = split_bearer raw scheme_is found;
          present = λ e. ground (arith, eq_iff (split_space rest).0 "");
          payload = payload;
          verified = verified;
          access = access;
          extracted = extracted;
          bound = extract_claims-device payload extracted;
        }
  ]
