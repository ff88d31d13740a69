-- ===== src/Mfa/Enrollment.antt =====
-- src/mfa/mfa-enroller.service.ts on the pending store and on the table of secrets. What node:crypto
-- and the URI encoding compute are parameters. `up` tells which query of a call, counted from 0,
-- the database answers. `secret` is the answer of `generateSecret`, `uuid` of `randomUUID`.
pub mod Attempts
pub mod Budget
pub mod Steps
pub mod Commit
use zt_access_gateway.Common.{
  ℕ, String, Bool, true, false, not, Option, none, some, List, ◌∷◌, ◌==◌, concat, codes, leb,
  if◌then◌else◌,
}
use zt_access_gateway.JsMap.{get, set, delete}
use zt_access_gateway.Mfa.Pending.{
  Pending, set_pending, increment_attempts, get_pending, has_pending_for_user,
}
use zt_access_gateway.Mfa.Totp.{Hmac, verify}

pub record EnrollCrypto : Type 0 where
  pub hmac_sha1 : Hmac
  pub aes_gcm_encrypt : String → String
  pub encode_uri_component : String → String

pub record EnrollConfig : Type 0 where
  pub enroll_pending_ttl_ms : ℕ
  pub issuer_name : String

pub record EnrollEnv : Type 0 where
  pub now : ℕ
  pub up : ℕ → Bool
  pub uuid : String
  pub secret : String

pub data EnrollRefusal : Type 0 where
  already_enrolled internal_enroll : EnrollRefusal

pub data MfaEnrollResult : Type 0 where
  enrolling : String → String → MfaEnrollResult
  not_enrolling : EnrollRefusal → MfaEnrollResult

pub data ConfirmRefusal : Type 0 where
  expired_enrollment invalid_totp user_mismatch internal_confirm : ConfirmRefusal

pub data MfaConfirmResult : Type 0 where
  confirmed : MfaConfirmResult
  not_confirmed : ConfirmRefusal → MfaConfirmResult

pub data MfaDeleteEnrollmentResult : Type 0 where
  reset : Bool → MfaDeleteEnrollmentResult
  not_reset : MfaDeleteEnrollmentResult

pub data EnrollEvent : Type 0 where
  totp_failed attempts_exhausted enrollment_confirmed : String → EnrollEvent
  enrollment_reset : String → Bool → EnrollEvent
  infra_error : String → EnrollEvent

pub record EnrollState : Type 0 where
  pub pending : Pending
  pub secrets : List (String × String)
  pub events : List EnrollEvent

abbrev pub emit : EnrollEvent → EnrollState → EnrollState
emit e st = record st { events = e ∷ st.events }

abbrev pub enroll_max_attempts : ℕ
enroll_max_attempts = 5

module _ (crypto : EnrollCrypto) (cfg : EnrollConfig) (env : EnrollEnv) where
  unfoldable pub otpauth_uri : String → String
  otpauth_uri label =
      let issuer = crypto.encode_uri_component cfg.issuer_name in
      concat "otpauth://totp/" (
        concat issuer (
          concat ":" (
            concat (crypto.encode_uri_component label) (
              concat "?secret=" (
                concat env.secret
                  (concat "&issuer=" (concat issuer "&algorithm=SHA1&digits=6&period=30")))))))

  abbrev label_of : Option String → String → String
  label_of none user = user
  label_of (some email) user = email

  -- An empty secret is no secret.
  abbrev pub is_enrolled : Option String → Bool
  is_enrolled none = false
  is_enrolled (some secret) = not (secret == "")

  unfoldable pub create_enrollment :
      String → Option String → EnrollState → MfaEnrollResult × EnrollState
  unfolding has_pending_for_user set_pending otpauth_uri get
  create_enrollment user email st =
      let (busy, swept) = has_pending_for_user user env.now st.pending in
      let st1 = record st { pending = swept } in
      if busy
      then (not_enrolling already_enrolled, st1)
      else if env.up 0
      then if is_enrolled (get user st.secrets) then (not_enrolling already_enrolled, st1) else (
        enrolling env.uuid (otpauth_uri (label_of email user)),
        record st1 {
          pending = set_pending cfg.enroll_pending_ttl_ms env.uuid user env.secret env.now swept;
        },
      )
      else (not_enrolling internal_enroll, emit (infra_error "createEnrollment") st1)

  -- A wrong code: it is reported and counted, and the last one that is allowed drops the entry.
  unfoldable pub count_failure : String → String → EnrollState → MfaConfirmResult × EnrollState
  unfolding increment_attempts delete
  count_failure id user st =
      let (attempts, pending) = increment_attempts id st.pending in
      let st1 = emit (totp_failed user) (record st { pending = pending }) in
      (
        not_confirmed invalid_totp,
        if leb enroll_max_attempts attempts
            then emit (attempts_exhausted user) (record st1 { pending = delete id st1.pending })
            else st1,
      )

  -- The `catch` of `confirmEnrollment`.
  abbrev pub crash_confirm : EnrollState → MfaConfirmResult × EnrollState
  crash_confirm st = (not_confirmed internal_confirm, emit (infra_error "confirmEnrollment") st)

  -- A right code: the secret is encrypted and saved, then the entry goes.
  unfoldable pub commit : String → String → String → EnrollState → MfaConfirmResult × EnrollState
  unfolding set delete
  commit id user secret st =
      if env.up 0
      then (
        confirmed,
        emit (enrollment_confirmed user) (record st {
          secrets = set user (crypto.aes_gcm_encrypt secret) st.secrets;
          pending = delete id st.pending;
        }),
      )
      else crash_confirm st

  unfoldable pub confirm_enrollment :
      String → String → String → EnrollState → MfaConfirmResult × EnrollState
  unfolding get_pending count_failure commit
  confirm_enrollment id code user st =
      let (found, pending) = get_pending id env.now st.pending in
      let st1 = record st { pending = pending } in
      elim found [
        | none ↦ (not_confirmed expired_enrollment, st1)
        | some entry ↦
            if not (entry.user_id == user)
            then (not_confirmed user_mismatch, st1)
            else elim (verify crypto.hmac_sha1 (codes code) entry.secret env.now) [
              | none ↦ crash_confirm st1
              | some fits ↦
                  if fits then commit id user entry.secret st1 else count_failure id user st1
            ]
      ]

  unfoldable pub delete_enrollment : String → EnrollState → MfaDeleteEnrollmentResult × EnrollState
  unfolding get delete
  delete_enrollment user st =
      let deleted : Bool = elim (get user st.secrets) [ none ↦ false | some s ↦ true ] in
      if env.up 0
      then (
        reset deleted,
        emit (enrollment_reset user deleted) (record st { secrets = delete user st.secrets }),
      )
      else (not_reset, emit (infra_error "deleteEnrollment") st)
