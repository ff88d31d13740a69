-- ===== src/Mfa.antt =====
-- src/mfa/mfa-challenger.service.ts with its repositories (src/mfa/repositories) as tables. The
-- JWT library, hashing, AES-GCM and TOTP are parameters. `up` tells which query of a call, counted
-- from 0, the database answers; a query that it does not answer throws. Ids of challenges are
-- fresh. The clock is in milliseconds and the same in the process and in the database.
pub mod Tokens
pub mod Limits
pub mod Totp
pub mod Pending
pub mod Demo
pub mod Base32
pub mod Controller
pub mod Enrollment
use zt_access_gateway.Common.{
  ℕ, suc, ◌+◌, ◌/◌, String, Bool, true, false, ◌&&◌, Option, none, some, List, [], ◌∷◌, ◌==◌,
  concat, ltb, leb, if◌then◌else◌,
}
use zt_access_gateway.Gateway.{MfaCreateResult, rate_limited, internal, created, refused}

pub record MfaTokenClaims : Type 0 where
  pub sub : String
  pub jti : String
  pub device_id : String
  pub fp_hash : String
  -- `typ === 'mfa'`.
  pub is_mfa : Bool
  pub exp : ℕ

pub record Library : Type 0 where
  pub sign : MfaTokenClaims → String
  -- `jwtVerify` at a time in milliseconds; `none` where it throws.
  pub jwt_verify : String → ℕ → Option MfaTokenClaims
  pub sha256_hex : String → String
  pub aes_gcm_decrypt : String → Option String
  pub totp_verify : String → String → ℕ → Bool

pub record Config : Type 0 where
  pub challenge_ttl_ms : ℕ
  pub token_ttl_ms : ℕ
  pub rate_limit_max : ℕ
  pub rate_limit_window_ms : ℕ

pub record Env : Type 0 where
  pub now : ℕ
  pub up : ℕ → Bool
  pub uuid : ℕ → String

pub record ChallengeRow : Type 0 where
  pub challenge_id : String
  pub user_id : String
  pub expires_at : ℕ
  pub created_at : ℕ

pub record MfaTokenRow : Type 0 where
  pub jti : String
  pub user_id : String
  pub fingerprint_hash : String
  pub expires_at : ℕ
  pub is_revoked : Bool

pub data MfaReason : Type 0 where
  expired_challenge unknown_user invalid_code signature wrong_type : MfaReason
  unknown_jti revoked expired fingerprint_mismatch internal_fault : MfaReason

pub data MfaEvent : Type 0 where
  mfa_failed : MfaReason → MfaEvent
  mfa_rate_limited mfa_secret_decrypt_failed infra_error : String → MfaEvent

pub data MfaVerifyResult : Type 0 where
  minted : String → ℕ → MfaVerifyResult
  not_minted : MfaReason → MfaVerifyResult

pub data MfaValidateResult : Type 0 where
  valid : MfaTokenClaims → MfaValidateResult
  not_valid : MfaReason → MfaValidateResult

pub record MfaState : Type 0 where
  pub challenges : List ChallengeRow
  pub tokens : List MfaTokenRow
  pub secrets : List (String × String)
  pub events : List MfaEvent

abbrev pub emit : MfaEvent → MfaState → MfaState
emit e st = record st { events = e ∷ st.events }

unfoldable pub get_challenge : String → List ChallengeRow → Option ChallengeRow
get_challenge id [] = none
get_challenge id (row ∷ rest) =
    let later = get_challenge id rest in if row.challenge_id == id then some row else later

unfoldable pub get_token : String → List MfaTokenRow → Option MfaTokenRow
get_token jti [] = none
get_token jti (row ∷ rest) =
    let later = get_token jti rest in if row.jti == jti then some row else later

unfoldable pub get_secret : String → List (String × String) → Option String
get_secret user [] = none
get_secret user ((u, s) ∷ rest) =
    let later = get_secret user rest in if u == user then some s else later

-- The rows of the user that are younger than the window.
unfoldable pub count_recent : String → ℕ → ℕ → List ChallengeRow → ℕ
count_recent user window_ms now [] = 0
count_recent user window_ms now (row ∷ rest) =
    let n = count_recent user window_ms now rest in
    if row.user_id == user && ltb now (row.created_at + window_ms) then suc n else n

unfoldable pub create_challenge : Config → Env → String → MfaState → MfaCreateResult × MfaState
unfolding count_recent
create_challenge cfg env user st =
    let row : ChallengeRow = record {
      challenge_id = env.uuid 0;
      user_id = user;
      expires_at = env.now + cfg.challenge_ttl_ms;
      created_at = env.now;
    } in
    if env.up 0
    then if ltb (count_recent user cfg.rate_limit_window_ms env.now st.challenges)
        cfg.rate_limit_max
      then (created row.challenge_id row.expires_at, record st { challenges = row ∷ st.challenges })
      else (refused rate_limited, emit (mfa_rate_limited user) st)
    else (refused internal, emit (infra_error "createChallenge") st)

module _ (lib : Library) (cfg : Config) (env : Env) where
  unfoldable pub fingerprint : String → String → String → String
  fingerprint user device ip =
      lib.sha256_hex (concat user (concat "|" (concat device (concat "|" ip))))

  abbrev pub fail_verify : MfaReason → MfaState → MfaVerifyResult × MfaState
  fail_verify reason st = (not_minted reason, emit (mfa_failed reason) st)

  -- The `catch` of `verifyTotp`.
  abbrev pub crash_verify : MfaState → MfaVerifyResult × MfaState
  crash_verify st = fail_verify internal_fault (emit (infra_error "verifyTotp") st)

  -- `insertMfaToken`: on a collision of the id the row is inserted under a fresh one, which is query
  -- 3 and can fail as well; `none` where the insertion throws.
  unfoldable pub insert_mfa_token : MfaTokenRow → List MfaTokenRow → Option (List MfaTokenRow)
  unfolding get_token
  insert_mfa_token row tokens = elim (get_token row.jti tokens) [
    | none ↦ some (row ∷ tokens)
    | some old ↦ elim (get_token (env.uuid 2) tokens) [
      | none ↦ if env.up 3 then some (record row { jti = env.uuid 2 } ∷ tokens) else none
      | some older ↦ none
    ]
  ]

  unfoldable pub new_claims : String → String → String → MfaTokenClaims
  unfolding fingerprint
  new_claims user device ip = record {
    sub = user;
    jti = env.uuid 1;
    device_id = device;
    fp_hash = fingerprint user device ip;
    is_mfa = true;
    exp = (env.now + cfg.token_ttl_ms) / 1000;
  }

  unfoldable pub new_row : String → String → String → MfaTokenRow
  unfolding fingerprint
  new_row user device ip = record {
    jti = env.uuid 1;
    user_id = user;
    fingerprint_hash = fingerprint user device ip;
    expires_at = env.now + cfg.token_ttl_ms;
    is_revoked = false;
  }

  -- Steps 4 to 6 of `verifyTotp`.
  unfoldable pub mint : String → String → String → MfaState → MfaVerifyResult × MfaState
  unfolding insert_mfa_token new_claims new_row
  mint user device ip st =
      if env.up 2
      then elim (insert_mfa_token (new_row user device ip) st.tokens) [
        | none ↦ crash_verify st
        | some tokens ↦ (
          minted (lib.sign (new_claims user device ip)) (env.now + cfg.token_ttl_ms),
          record st { tokens = tokens },
        )
      ]
      else crash_verify st

  -- An empty secret is no secret.
  unfoldable pub verify_secret :
      Option String → String → String → String → String → MfaState → MfaVerifyResult × MfaState
  unfolding mint
  verify_secret none code user device ip st = fail_verify unknown_user st
  verify_secret (some encrypted) code user device ip st =
      if encrypted == ""
      then fail_verify unknown_user st
      else elim (lib.aes_gcm_decrypt encrypted) [
        | none ↦ fail_verify unknown_user (emit (mfa_secret_decrypt_failed user) st)
        | some plain ↦
            if plain == ""
            then fail_verify unknown_user (emit (mfa_secret_decrypt_failed user) st)
            else if lib.totp_verify code plain env.now
            then mint user device ip st
            else fail_verify invalid_code st
      ]

  unfoldable pub verify_totp :
      String → String → String → String → String → MfaState → MfaVerifyResult × MfaState
  unfolding get_challenge get_secret verify_secret
  verify_totp challenge_id code user ip device st =
      if env.up 0
      then elim (get_challenge challenge_id st.challenges) [
        | none ↦ fail_verify expired_challenge st
        | some row ↦
            if ltb row.expires_at env.now
            then fail_verify expired_challenge st
            else if env.up 1
            then verify_secret (get_secret user st.secrets) code user device ip st
            else crash_verify st
      ]
      else crash_verify st

  abbrev pub fail_validate : MfaReason → MfaState → MfaValidateResult × MfaState
  fail_validate reason st = (not_valid reason, emit (mfa_failed reason) st)

  unfoldable pub validate_row :
      Option MfaTokenRow → MfaTokenClaims → String → MfaState → MfaValidateResult × MfaState
  validate_row none payload current st = fail_validate unknown_jti st
  validate_row (some row) payload current st =
      if row.is_revoked
      then fail_validate revoked st
      else if leb row.expires_at env.now
      then fail_validate expired st
      else if current == row.fingerprint_hash
      then (valid payload, st)
      else fail_validate fingerprint_mismatch st

  unfoldable pub validate_mfa_token :
      String → String → String → String → MfaState → MfaValidateResult × MfaState
  unfolding get_token validate_row fingerprint
  validate_mfa_token mfa_token user device ip st = elim (lib.jwt_verify mfa_token env.now) [
    | none ↦ fail_validate signature st
    | some payload ↦
        if payload.is_mfa
        then if env.up 0
          then validate_row (get_token payload.jti st.tokens) payload (fingerprint user device ip)
              st
          else (not_valid internal_fault, emit (infra_error "validateMfaToken") st)
        else fail_validate wrong_type st
  ]
