-- ===== src/Mfa/Enrollment/Commit.antt =====
-- src/mfa/mfa-enroller.service.ts: whose secret is written and when.
use zt_access_gateway.Common.{
  ◌+◌, ◌<◌, String, ◌≡◌, refl, ◌≢◌, inl, inr, true, Option, none, some, List, [], ◌∷◌, arith,
  eq_refl, codes, Bool-cases,
}
use zt_access_gateway.JsMap.{get, set, get-set, get-delete}
use zt_access_gateway.Mfa.{get_secret, expired}
use zt_access_gateway.Mfa.Pending.{PendingEnrollment, has_pending_for_user}
use zt_access_gateway.Mfa.Totp.{verify}
use zt_access_gateway.Mfa.Enrollment.{
  EnrollCrypto, EnrollConfig, EnrollEnv, EnrollState, create_enrollment, count_failure, commit,
  confirm_enrollment, enrolling, confirmed,
}
use zt_access_gateway.Mfa.Enrollment.Budget.{new_entry, create-enrolling}
use zt_access_gateway.Mfa.Enrollment.Steps.{
  Outcome, IsOwn, ConfirmStep, confirm_enrollment-ConfirmStep, confirm_enrollment-commit, missing,
  expired, foreign, broken, right, wrong,
}

module _ (crypto : EnrollCrypto) (cfg : EnrollConfig) (env : EnrollEnv) where
  -- What a confirmation has established and done: the code fitted the secret of the user's own
  -- pending enrollment, which is stored encrypted for that user and for no other, and the
  -- enrollment is gone.
  pub record IsCommitted (id code user : String) (st st' : EnrollState) : Type 0 where
    pub entry : PendingEnrollment
    pub own : IsOwn crypto cfg env id user st entry
    pub fits : verify crypto.hmac_sha1 (codes code) entry.secret env.now ≡ some true
    pub stored : st'.secrets ≡ set user (crypto.aes_gcm_encrypt entry.secret) st.secrets
    pub gone : get id st'.pending ≡ none

  ConfirmStep-IsCommitted :
      (id code user : String) (st : EnrollState) {r : Outcome crypto cfg env}
      → ConfirmStep crypto cfg env id code user st r
      → (r.0 ≡ confirmed → IsCommitted id code user st r.1)
        × (r.0 ≢ confirmed → r.1.secrets ≡ st.secrets)
  unfolding commit count_failure
  ConfirmStep-IsCommitted id code user st (missing absent) = (λ e. absurd (ground arith), λ d. refl)
  ConfirmStep-IsCommitted id code user st (expired entry found old) =
      (λ e. absurd (ground arith), λ d. refl)
  ConfirmStep-IsCommitted id code user st (foreign entry found other) =
      (λ e. absurd (ground arith), λ d. refl)
  ConfirmStep-IsCommitted id code user st (broken entry own bad) =
      (λ e. absurd (ground arith), λ d. refl)
  ConfirmStep-IsCommitted id code user st (right entry own fits) = elim (Bool-cases (env.up 0)) [
    | inl up ↦ (
      λ e. record {
        entry = entry;
        own = own;
        fits = fits;
        stored = rw up refl;
        gone = rw (up, get-delete id id st.pending, eq_refl id) refl;
      },
      λ d. absurd (d (rw up refl)),
    )
    | inr down ↦ (λ e. absurd (ground arith), λ d. rw down refl)
  ]
  ConfirmStep-IsCommitted id code user st (wrong entry own fails) =
      (λ e. absurd (ground arith), λ d. ground arith)

  -- A confirmation that is answered with success has checked the code against the secret of the
  -- user's own pending enrollment, stored that secret encrypted for that user only, and dropped
  -- the enrollment; one that is answered otherwise writes no secret.
  pub confirm_enrollment-IsCommitted :
      (id code user : String) (st : EnrollState)
      → let r = confirm_enrollment crypto cfg env id code user st in
        (r.0 ≡ confirmed → IsCommitted id code user st r.1)
        × (r.0 ≢ confirmed → r.1.secrets ≡ st.secrets)
  confirm_enrollment-IsCommitted id code user st =
      ConfirmStep-IsCommitted id code user st
        (confirm_enrollment-ConfirmStep crypto cfg env id code user st)

get_secret-get : (user : String) (m : List (String × String)) → get_secret user m ≡ get user m
unfolding get_secret get
get_secret-get user [] = refl
get_secret-get user ((u, s) ∷ m) = ground (arith, get_secret-get user m)

commit-stored :
    (crypto : EnrollCrypto) (cfg : EnrollConfig) (env : EnrollEnv) (id user secret : String)
    (st : EnrollState)
    → env.up 0 ≡ true
    → let r = commit crypto cfg env id user secret st in
      (r.0 ≡ confirmed) × (get_secret user r.1.secrets ≡ some (crypto.aes_gcm_encrypt secret))
unfolding commit
commit-stored crypto cfg env id user secret st up = (
  rw up refl,
  rw
      (
        up,
        get_secret-get user (set user (crypto.aes_gcm_encrypt secret) st.secrets),
        get-set user user (crypto.aes_gcm_encrypt secret) st.secrets,
        eq_refl user,
      )
      refl,
)

-- A user who enrolls and confirms with a code that fits the secret handed out, before the
-- enrollment expires and while the database answers, is enrolled: the challenger then finds the
-- encryption of exactly that secret.
pub create-confirm :
    (crypto : EnrollCrypto) (cfg : EnrollConfig) (env env' : EnrollEnv) (user code : String)
    (email : Option String) (st : EnrollState) {id uri : String}
    → (create_enrollment crypto cfg env user email st).0 ≡ enrolling id uri
    → env'.now < env.now + cfg.enroll_pending_ttl_ms
    → verify crypto.hmac_sha1 (codes code) env.secret env'.now ≡ some true
    → env'.up 0 ≡ true
    → let st' = (create_enrollment crypto cfg env user email st).1 in
      let r = confirm_enrollment crypto cfg env' id code user st' in
      (r.0 ≡ confirmed) × (get_secret user r.1.secrets ≡ some (crypto.aes_gcm_encrypt env.secret))
create-confirm crypto cfg env env' user code email st {id} {uri} made late fits up =
    let (same, after, free, unenrolled) = create-enrolling crypto cfg env user email st made in
    let entry = new_entry crypto cfg user env in
    let st' = (create_enrollment crypto cfg env user email st).1 in
    let own : IsOwn crypto cfg env' id user st' entry = record {
      found =
          rw
            (
              after,
              same,
              get-set env.uuid env.uuid entry (has_pending_for_user user env.now st.pending).1,
              eq_refl env.uuid,
            )
            refl;
      unexpired = late;
      owned = refl;
    } in
    rw (confirm_enrollment-commit crypto cfg env' id code user st' own fits)
      (commit-stored crypto cfg env' id user env.secret st' up)
