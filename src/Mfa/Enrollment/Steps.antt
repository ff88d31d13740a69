-- ===== src/Mfa/Enrollment/Steps.antt =====
-- src/mfa/mfa-enroller.service.ts: what a call of confirmEnrollment can come to, as a relation.
use zt_access_gateway.Common.{
  ◌≤◌, ◌<◌, String, ◌≡◌, sym, subst, ◌≢◌, inl, inr, true, false, none, some, arith, ◌==◌, eq_iff,
  codes, leb, Bool-cases, Option-cases,
}
use zt_access_gateway.JsMap.{get, delete}
use zt_access_gateway.Mfa.Pending.{PendingEnrollment, get_pending}
use zt_access_gateway.Mfa.Totp.{verify}
use zt_access_gateway.Mfa.Enrollment.{
  EnrollCrypto, EnrollConfig, EnrollEnv, MfaConfirmResult, EnrollState, count_failure,
  crash_confirm, commit, confirm_enrollment, expired_enrollment, user_mismatch, not_confirmed,
}

module _ (crypto : EnrollCrypto) (cfg : EnrollConfig) (env : EnrollEnv) where
  abbrev pub Outcome : Type 0
  Outcome = MfaConfirmResult × EnrollState

  -- The user's own enrollment stands under the id and has not expired.
  pub record IsOwn (id user : String) (st : EnrollState) (entry : PendingEnrollment) : Type 0 where
    pub found : get id st.pending ≡ some entry
    pub unexpired : env.now < entry.expires_at
    pub owned : entry.user_id ≡ user

  pub data ConfirmStep (id code user : String) (st : EnrollState) : Outcome → Type 0 where
    missing :
        get id st.pending ≡ none
        → ConfirmStep id code user st (not_confirmed expired_enrollment, st)
    expired :
        (entry : PendingEnrollment)
        → get id st.pending ≡ some entry
        → entry.expires_at ≤ env.now
        → ConfirmStep id code user st
            (not_confirmed expired_enrollment, record st { pending = delete id st.pending })
    foreign :
        (entry : PendingEnrollment)
        → get id st.pending ≡ some entry
        → entry.user_id ≢ user
        → ConfirmStep id code user st (not_confirmed user_mismatch, st)
    broken :
        (entry : PendingEnrollment)
        → IsOwn id user st entry
        → verify crypto.hmac_sha1 (codes code) entry.secret env.now ≡ none
        → ConfirmStep id code user st (crash_confirm crypto cfg env st)
    right :
        (entry : PendingEnrollment)
        → IsOwn id user st entry
        → verify crypto.hmac_sha1 (codes code) entry.secret env.now ≡ some true
        → ConfirmStep id code user st (commit crypto cfg env id user entry.secret st)
    wrong :
        (entry : PendingEnrollment)
        → IsOwn id user st entry
        → verify crypto.hmac_sha1 (codes code) entry.secret env.now ≡ some false
        → ConfirmStep id code user st (count_failure crypto cfg env id user st)

  lands :
      (id code user : String) (st : EnrollState) {r : Outcome}
      → ConfirmStep id code user st r
      → confirm_enrollment crypto cfg env id code user st ≡ r
      → ConfirmStep id code user st (confirm_enrollment crypto cfg env id code user st)
  lands id code user st step e = subst (ConfirmStep id code user st) (sym e) step

  -- A confirmation comes to exactly what the relation says: an id that is not pending or whose
  -- enrollment has expired (which drops it), another user's enrollment, a secret that does not
  -- decode, a right code (the secret is committed) or a wrong one (which is counted).
  pub confirm_enrollment-ConfirmStep :
      (id code user : String) (st : EnrollState)
      → ConfirmStep id code user st (confirm_enrollment crypto cfg env id code user st)
  unfolding confirm_enrollment get_pending
  confirm_enrollment-ConfirmStep id code user st = elim (Option-cases (get id st.pending)) [
    | inl absent ↦ lands id code user st (missing absent) (ground arith)
    | inr (entry, found) ↦ elim (Bool-cases (leb entry.expires_at env.now)) [
      | inl old ↦ lands id code user st (expired entry found (ground arith)) (ground arith)
      | inr young ↦ elim (Bool-cases (entry.user_id == user)) [
        | inr other ↦
            lands id code user st (foreign entry found (ground (arith, eq_iff entry.user_id user)))
              (ground arith)
        | inl mine ↦
            let own : IsOwn id user st entry = record {
              found = found;
              unexpired = ground arith;
              owned = ground (arith, eq_iff entry.user_id user);
            } in
            elim (Option-cases (verify crypto.hmac_sha1 (codes code) entry.secret env.now)) [
              | inl bad ↦ lands id code user st (broken entry own bad) (ground arith)
              | inr (true, fits) ↦ lands id code user st (right entry own fits) (ground arith)
              | inr (false, fails) ↦ lands id code user st (wrong entry own fails) (ground arith)
            ]
      ]
    ]
  ]

  pub confirm_enrollment-commit :
      (id code user : String) (st : EnrollState) {entry : PendingEnrollment}
      → IsOwn id user st entry
      → verify crypto.hmac_sha1 (codes code) entry.secret env.now ≡ some true
      → confirm_enrollment crypto cfg env id code user st
        ≡ commit crypto cfg env id user entry.secret st
  unfolding confirm_enrollment get_pending
  confirm_enrollment-commit id code user st {entry} own fits =
      ground (arith, own.found, own.unexpired, own.owned, eq_iff entry.user_id user)
