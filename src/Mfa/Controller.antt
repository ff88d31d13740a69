-- ===== src/Mfa/Controller.antt =====
-- src/mfa/mfa.controller.ts: the routes behind JwtAuthGuard, and for the admin's route RolesGuard.
-- Bodies are the texts that the code puts into them; a number's text is a parameter.
pub mod Admin
use zt_access_gateway.Common.{
  ℕ, ◌+◌, ◌/◌, String, false, Option, none, some, List, [], ◌∷◌, if◌then◌else◌,
}
use zt_access_gateway.Request.{UserClaims, Request, or_else, extract_ip, extract_device_id}
use zt_access_gateway.Gateway.{rate_limited, internal, created, refused}
use zt_access_gateway.Auth.{Jose, AuthConfig}
use zt_access_gateway.Auth.Routes.{jwt_auth_guard, roles_guard, lets_in, turns_away}
use zt_access_gateway.Mfa
use zt_access_gateway.Mfa.{
  Library, Env, MfaReason, MfaState, create_challenge, verify_totp, expired_challenge, unknown_user,
  invalid_code, signature, wrong_type, unknown_jti, revoked, expired, fingerprint_mismatch,
  internal_fault, minted, not_minted,
}
use zt_access_gateway.Mfa.Enrollment.{
  EnrollCrypto, EnrollConfig, EnrollEnv, ConfirmRefusal, EnrollState, create_enrollment,
  confirm_enrollment, delete_enrollment, already_enrolled, internal_enroll, enrolling,
  not_enrolling, expired_enrollment, invalid_totp, user_mismatch, internal_confirm, confirmed,
  not_confirmed, reset, not_reset,
}

pub record HttpReply : Type 0 where
  pub status : ℕ
  pub retry_after : Option ℕ
  pub body : List (String × String)

abbrev pub reply : ℕ → List (String × String) → HttpReply
reply status body = record { status = status; retry_after = none; body = body }

unfoldable pub mfa_reason : MfaReason → String
mfa_reason expired_challenge = "expired_challenge"
mfa_reason unknown_user = "unknown_user"
mfa_reason invalid_code = "invalid_code"
mfa_reason signature = "signature"
mfa_reason wrong_type = "wrong_type"
mfa_reason unknown_jti = "unknown_jti"
mfa_reason revoked = "revoked"
mfa_reason expired = "expired"
mfa_reason fingerprint_mismatch = "fingerprint_mismatch"
mfa_reason internal_fault = "internal"

-- `Math.ceil(rateLimitWindowMs / 1000)`
abbrev pub window_sec : ℕ → ℕ
window_sec ms = (ms + 999) / 1000

unfoldable pub initiate :
    (ℕ → String) → Mfa.Config → Env → UserClaims → MfaState → HttpReply × MfaState
unfolding create_challenge
initiate show cfg env user st =
    let (result, st') = create_challenge cfg env user.user_id st in
    (
      elim result [
        | created id expires_at ↦
            reply 201 (("challengeId", id) ∷ ("expiresAt", show expires_at) ∷ [])
        | refused rate_limited ↦ record {
          status = 429;
          retry_after = some (window_sec cfg.rate_limit_window_ms);
          body = ("error", "mfa_rate_limited") ∷ [];
        }
        | refused internal ↦ reply 500 (("error", "mfa_internal") ∷ [])
      ],
      st',
    )

-- An absent device id is the empty text.
unfoldable pub verify_route :
    (ℕ → String)
    → Library
    → Mfa.Config
    → Env
    → UserClaims
    → Request
    → String
    → String
    → MfaState
    → HttpReply × MfaState
unfolding verify_totp mfa_reason
verify_route show lib cfg env user req challenge_id code st =
    let (result, st') =
      verify_totp lib cfg env challenge_id code user.user_id (extract_ip req)
        (or_else (extract_device_id req) "") st in
    (
      elim result [
        | minted jwt expires_at ↦ reply 200 (("token", jwt) ∷ ("expiresAt", show expires_at) ∷ [])
        | not_minted reason ↦
            reply 401 (("error", "mfa_invalid") ∷ ("reason", mfa_reason reason) ∷ [])
      ],
      st',
    )

module _ (crypto : EnrollCrypto) (cfg : EnrollConfig) (env : EnrollEnv) where
  unfoldable pub enroll : UserClaims → EnrollState → HttpReply × EnrollState
  unfolding create_enrollment
  enroll user st =
      let (result, st') = create_enrollment crypto cfg env user.user_id user.email st in
      (
        elim result [
          | enrolling id uri ↦ reply 201 (("enrollmentId", id) ∷ ("otpauthUri", uri) ∷ [])
          | not_enrolling already_enrolled ↦ reply 409 (("error", "already_enrolled") ∷ [])
          | not_enrolling internal_enroll ↦ reply 500 (("error", "enrollment_internal") ∷ [])
        ],
        st',
      )

  unfoldable pub confirm_reason : ConfirmRefusal → HttpReply
  confirm_reason expired_enrollment =
      reply 400 (("error", "enrollment_failed") ∷ ("reason", "expired_enrollment") ∷ [])
  confirm_reason invalid_totp =
      reply 400 (("error", "enrollment_failed") ∷ ("reason", "invalid_totp") ∷ [])
  confirm_reason user_mismatch =
      reply 400 (("error", "enrollment_failed") ∷ ("reason", "user_mismatch") ∷ [])
  confirm_reason internal_confirm = reply 500 (("error", "enrollment_internal") ∷ [])

  unfoldable pub confirm_route :
      UserClaims → String → String → EnrollState → HttpReply × EnrollState
  unfolding confirm_enrollment confirm_reason
  confirm_route user enrollment_id code st =
      let (result, st') = confirm_enrollment crypto cfg env enrollment_id code user.user_id st in
      (elim result [ confirmed ↦ reply 200 [] | not_confirmed reason ↦ confirm_reason reason ], st')

  -- `{ deleted }` with 200, or an InternalServerErrorException.
  unfoldable pub admin_delete_enrollment : String → EnrollState → HttpReply × EnrollState
  unfolding delete_enrollment
  admin_delete_enrollment user_id st =
      let (result, st') = delete_enrollment crypto cfg env user_id st in
      (
        elim result [
          | reset deleted ↦ reply 200 (("deleted", if deleted then "true" else "false") ∷ [])
          | not_reset ↦ reply 500 []
        ],
        st',
      )

  -- The guards in their order, then the handler: RolesGuard is global, so it comes first and reads
  -- `req.user` as the gateway has set it (403); then JwtAuthGuard of the class throws 401.
  unfoldable pub admin_delete_route :
      Jose → AuthConfig → Request → String → EnrollState → HttpReply × EnrollState
  unfolding jwt_auth_guard roles_guard admin_delete_enrollment
  admin_delete_route jose auth_cfg req user_id st =
      if roles_guard ("admin" ∷ []) req.user
      then elim (jwt_auth_guard jose auth_cfg false req) [
        | turns_away message ip ja4h ↦ (reply 401 [], st)
        | lets_in req' ↦ admin_delete_enrollment user_id st
      ]
      else (reply 403 [], st)
