-- ===== src/Auth.antt =====
-- src/auth/auth.service.ts. The JWT library is a parameter: it reads a token's header, imports a
-- key, and verifies a token under a key and the expected claims, or throws an error of a class.
-- Whether the set of remote keys is built now or was kept from an earlier call makes no difference
-- to its answers, so `jwksFunction` is the key set of its address.
pub mod Authentic
pub mod Routes
use Prim.Native.Char.{code}
use zt_access_gateway.Common.{
  ℕ, String, Bool, false, not, ◌||◌, Option, none, some, List, [], ◌∷◌, ◌==◌, concat, nat_eq,
  if◌then◌else◌,
}
use zt_access_gateway.Request.{UserClaims, trim}
use zt_access_gateway.Gateway.{AuthOutcome, missing, scheme, token, ok, invalid}

-- The claims of a payload that the code looks at, by the JSON type that it tests for.
pub data RoleItem : Type 0 where
  role : String → RoleItem
  not_text : RoleItem

pub data RolesClaim : Type 0 where
  array : List RoleItem → RolesClaim
  not_array : RolesClaim

pub record JwtPayload : Type 0 where
  pub sub : String
  pub jti : String
  pub exp : ℕ
  pub typ : Option String
  -- `none` for a claim that is absent or not a text.
  pub device_id : Option String
  pub roles : RolesClaim
  pub email : Option String
  pub session_id : Option String

pub data JoseError : Type 0 where
  jwt_expired jws_signature_verification_failed jose_alg_not_allowed : JoseError
  jwks_no_matching_key jwks_timeout : JoseError
  jwt_claim_validation_failed : String → JoseError
  -- The service's own UnauthorizedException.
  unauthorized_exception : String → JoseError
  other_jose_error : String → JoseError

-- What a call gives or throws.
pub data Attempt {ℓ} (A : Type ℓ) : Type ℓ where
  returns : A → Attempt A
  throws : JoseError → Attempt A

pub data Key : Type 0 where
  symmetric_secret : String → Key
  -- An imported public key and its algorithm.
  spki : String → String → Key
  remote_jwks : String → Key

pub record VerifyOptions : Type 0 where
  pub algorithms : List String
  pub required_claims : List String
  pub issuer : Option String
  pub audience : Option String

pub record Jose : Type 0 where
  pub decode_protected_header : String → Attempt String
  pub import_spki : String → String → Attempt Key
  pub jwt_verify : String → Key → VerifyOptions → Attempt JwtPayload

-- An empty setting is no setting.
pub record AuthConfig : Type 0 where
  pub jwt_secret : String
  pub jwt_public_key : Option String
  pub jwks_uri : Option String
  pub jwt_issuer : Option String
  pub jwt_audience : Option String

abbrev pub non_empty : Option String → Option String
non_empty none = none
non_empty (some s) = if s == "" then none else some s

-- `raw.split(' ')`: the text before the first space, and the text after it where there is one.
unfoldable pub split_space : String → String × Option String
split_space String.[] = ("", none)
split_space (String.◌∷◌ c s) =
    let rest = split_space s in
    if nat_eq (code c) b' ' then ("", some s) else (String.◌∷◌ c rest.0, rest.1)

-- The second part of the split.
abbrev pub second_part : Option String → String
second_part none = ""
second_part (some s) = (split_space s).0

unfoldable pub text_roles : List RoleItem → List String
text_roles [] = []
text_roles (role r ∷ rest) = r ∷ text_roles rest
text_roles (not_text ∷ rest) = text_roles rest

abbrev pub roles_of : RolesClaim → List String
roles_of (array items) = text_roles items
roles_of not_array = []

-- The message of the UnauthorizedException that it always throws.
unfoldable pub map_jose_error : JoseError → String
map_jose_error jwt_expired = "Token has expired"
map_jose_error jws_signature_verification_failed = "Invalid token signature"
map_jose_error jose_alg_not_allowed = "Algorithm not allowed"
map_jose_error (jwt_claim_validation_failed claim) = concat "Invalid claim: " claim
map_jose_error jwks_no_matching_key = "No matching key found in JWKS"
map_jose_error jwks_timeout = "JWKS endpoint timeout"
map_jose_error (unauthorized_exception message) = message
map_jose_error (other_jose_error message) = "Invalid token"

-- `throws` with a message stands for an UnauthorizedException.
pub data Checked {ℓ} (A : Type ℓ) : Type ℓ where
  accepted : A → Checked A
  rejected : String → Checked A

abbrev pub is_mfa : Option String → Bool
is_mfa none = false
is_mfa (some typ) = typ == "mfa"

unfoldable pub extract_claims : JwtPayload → Checked UserClaims
unfolding text_roles
extract_claims payload = elim payload.device_id [
  | none ↦ rejected "Token missing deviceId claim"
  | some device_id ↦
      if trim device_id == ""
      then rejected "Token missing deviceId claim"
      else accepted (record {
        user_id = payload.sub;
        roles = roles_of payload.roles;
        jti = payload.jti;
        exp = payload.exp;
        email = payload.email;
        session_id = payload.session_id;
        device_id = device_id;
      })
]

module _ (jose : Jose) (cfg : AuthConfig) where
  abbrev pub options : VerifyOptions
  options = record {
    algorithms = "HS256" ∷ "RS256" ∷ "ES256" ∷ [];
    required_claims = "jti" ∷ "sub" ∷ [];
    issuer = non_empty cfg.jwt_issuer;
    audience = non_empty cfg.jwt_audience;
  }

  unfoldable pub verify_asymmetric : String → String → Attempt JwtPayload
  verify_asymmetric jwt alg = elim (non_empty cfg.jwt_public_key) [
    | some pem ↦ elim (jose.import_spki pem alg) [
      | returns key ↦ jose.jwt_verify jwt key options
      | throws e ↦ throws e
    ]
    | none ↦ elim (non_empty cfg.jwks_uri) [
      | some uri ↦ jose.jwt_verify jwt (remote_jwks uri) options
      | none ↦ throws (unauthorized_exception "No key material for asymmetric algorithm")
    ]
  ]

  -- The `try` block that routes by algorithm.
  unfoldable pub verify_by_alg : String → String → Attempt JwtPayload
  verify_by_alg jwt alg =
      if alg == "HS256"
      then jose.jwt_verify jwt (symmetric_secret cfg.jwt_secret) options
      else if alg == "RS256" || alg == "ES256"
      then verify_asymmetric jwt alg
      else throws (unauthorized_exception "Algorithm not allowed")

  unfoldable pub validate_token : String → Checked UserClaims
  validate_token jwt = elim (jose.decode_protected_header jwt) [
    | throws e ↦ rejected (map_jose_error e)
    | returns alg ↦ elim (verify_by_alg jwt alg) [
      | throws e ↦ rejected (map_jose_error e)
      | returns payload ↦
          if is_mfa payload.typ
          then rejected "MFA token cannot be used as access token"
          else extract_claims payload
    ]
  ]

  unfoldable pub authenticate : Option String → AuthOutcome
  authenticate none = invalid missing none
  authenticate (some raw) =
      let parts = split_space raw in
      let jwt = second_part parts.1 in
      if not (parts.0 == "Bearer") || jwt == ""
      then invalid scheme none
      else elim (validate_token jwt) [
        | accepted claims ↦ ok claims
        | rejected message ↦ invalid token (some message)
      ]
