-- ===== src/Mfa/Enrollment/Attempts.antt =====
-- src/mfa/mfa-enroller.service.ts: how many wrong codes a pending enrollment stands.
use zt_access_gateway.Common.{
  ℕ, ◌+◌, ◌≤◌, String, ◌≡◌, refl, ◌≢◌, inl, inr, Bool, true, false, not, ◌&&◌, Option, none, some,
  List, [], ◌∷◌, arith, ◌==◌, eq_iff, eq_refl, codes, ltb, if◌then◌else◌, Bool-cases, All,
}
use zt_access_gateway.JsMap.{get, get-set}
use zt_access_gateway.Mfa.Pending.{
  has_pending_for_user, IsMap, IsMap-set, IsMap-has_pending_for_user,
}
use zt_access_gateway.Mfa.Totp.{verify}
use zt_access_gateway.Mfa.Enrollment.{
  EnrollCrypto, EnrollConfig, EnrollEnv, MfaConfirmResult, EnrollState, create_enrollment,
  count_failure, commit, confirm_enrollment, delete_enrollment, enrolling, confirmed, not_confirmed,
}
use zt_access_gateway.Mfa.Enrollment.Budget.{
  budget_of, IsOpen, Spends, Spends-nothing, Spends-delete, Spends-told, new_entry, Spends-create,
  Spends-failure, create-enrolling,
}
use zt_access_gateway.Mfa.Enrollment.Steps.{
  Outcome, ConfirmStep, confirm_enrollment-ConfirmStep, missing, expired, foreign, broken, right,
  wrong,
}

module _ (crypto : EnrollCrypto) (cfg : EnrollConfig) where
  -- A call of the enroller, with what the clock, the database and the random source answer it.
  pub data Call : Type 0 where
    creates : EnrollEnv → String → Option String → Call
    confirms : EnrollEnv → String → String → String → Call
    resets : EnrollEnv → String → Call

  unfoldable pub call : Call → EnrollState → EnrollState
  call (creates env user email) st = (create_enrollment crypto cfg env user email st).1
  call (confirms env id code user) st = (confirm_enrollment crypto cfg env id code user st).1
  call (resets env user) st = (delete_enrollment crypto cfg env user st).1

  -- A wrong code is checked against the user's own enrollment, pending and unexpired.
  unfoldable pub is_wrong : EnrollEnv → String → String → String → EnrollState → Bool
  is_wrong env id code user st = elim (get id st.pending) [
    | none ↦ false
    | some entry ↦
        if ltb env.now entry.expires_at && entry.user_id == user
        then elim (verify crypto.hmac_sha1 (codes code) entry.secret env.now) [
          | none ↦ false
          | some fits ↦ not fits
        ]
        else false
  ]

  abbrev pub confirms_it : MfaConfirmResult → ℕ
  confirms_it confirmed = 1
  confirms_it (not_confirmed reason) = 0

  abbrev pub spent_by : String → Call → EnrollState → ℕ
  spent_by id (confirms env k code user) st =
      if k == id
      then if is_wrong env k code user st
        then 1
        else confirms_it (confirm_enrollment crypto cfg env k code user st).0
      else 0
  spent_by id c st = 0

  -- How many wrong codes the calls check against the enrollment, and a confirmation.
  unfoldable pub spent : String → List Call → EnrollState → ℕ
  spent id [] st = 0
  spent id (c ∷ rest) st = spent_by id c st + spent id rest (call c st)

  -- No call makes an enrollment under the id again.
  abbrev pub IsFresh : String → Call → Type 0
  IsFresh id (creates env user email) = env.uuid ≢ id
  IsFresh id c = Unit

  abbrev told : Bool → String → MfaConfirmResult → String → ℕ
  told fails k r id = if k == id then if fails then 1 else confirms_it r else 0

  told-nothing : (b : Bool) → ◌≡◌ {A = ℕ} (if b then 0 else 0) 0
  told-nothing true = refl
  told-nothing false = refl

  confirm-Spends :
      (id k code user : String) (env : EnrollEnv) (st : EnrollState) {r : Outcome crypto cfg env}
      → IsMap st.pending
      → IsOpen (get id st.pending)
      → ConfirmStep crypto cfg env k code user st r
      → Spends id (told (is_wrong env k code user st) k r.0 id) st.pending r.1.pending
  unfolding is_wrong commit count_failure
  confirm-Spends id k code user env st ok opened (missing absent) =
      let fine : is_wrong env k code user st ≡ false = ground arith in
      rw (fine, told-nothing (k == id)) (Spends-nothing id st.pending ok opened)
  confirm-Spends id k code user env st ok opened (expired entry found old) =
      let fine : is_wrong env k code user st ≡ false = ground arith in
      rw (fine, told-nothing (k == id)) (Spends-delete id k st.pending ok opened)
  confirm-Spends id k code user env st ok opened (foreign entry found other) =
      let fine : is_wrong env k code user st ≡ false = ground (arith, eq_iff entry.user_id user) in
      rw (fine, told-nothing (k == id)) (Spends-nothing id st.pending ok opened)
  confirm-Spends id k code user env st ok opened (broken entry own bad) =
      let fine : is_wrong env k code user st ≡ false = ground (arith, own.found) in
      rw (fine, told-nothing (k == id)) (Spends-nothing id st.pending ok opened)
  confirm-Spends id k code user env st ok opened (right entry own fits) =
      let fine : is_wrong env k code user st ≡ false = ground (arith, own.found) in
      elim (Bool-cases (env.up 0)) [
        | inl up ↦ rw (fine, up) (Spends-told id k st.pending own.found ok opened)
        | inr down ↦
            rw (fine, down, told-nothing (k == id)) (Spends-nothing id st.pending ok opened)
      ]
  confirm-Spends id k code user env st ok opened (wrong entry own fails) =
      let bad : is_wrong env k code user st ≡ true =
        ground (arith, own.found, own.unexpired, own.owned, eq_iff entry.user_id user) in
      rw bad (Spends-failure crypto cfg env id k user st own.found ok opened)

  delete_enrollment-pending :
      (env : EnrollEnv) (user : String) (st : EnrollState)
      → (delete_enrollment crypto cfg env user st).1.pending ≡ st.pending
  unfolding delete_enrollment
  delete_enrollment-pending env user st = ground arith

  call-Spends :
      (id : String) (c : Call) (st : EnrollState)
      → IsFresh id c
      → IsMap st.pending
      → IsOpen (get id st.pending)
      → Spends id (spent_by id c st) st.pending (call c st).pending
  unfolding call
  call-Spends id (creates env user email) st fresh ok opened =
      Spends-create crypto cfg id user email env st fresh ok opened
  call-Spends id (confirms env k code user) st fresh ok opened =
      confirm-Spends id k code user env st ok opened
        (confirm_enrollment-ConfirmStep crypto cfg env k code user st)
  call-Spends id (resets env user) st fresh ok opened =
      rw (delete_enrollment-pending env user st) (Spends-nothing id st.pending ok opened)

  spent-budget :
      (id : String) (calls : List Call) (st : EnrollState)
      → All (IsFresh id) calls
      → IsMap st.pending
      → IsOpen (get id st.pending)
      → spent id calls st ≤ budget_of (get id st.pending)
  unfolding spent
  spent-budget id [] st fresh ok opened = omega arith
  spent-budget id (c ∷ calls) st fresh ok opened =
      let (ok', opened', le) = call-Spends id c st fresh.0 ok opened in
      omega (arith, le, spent-budget id calls (call c st) fresh.1 ok' opened')

  -- However the calls of the enroller come, for all users together and whatever the database
  -- answers them, the wrong codes that are checked against an enrollment after it was created, and
  -- its confirmation, are together at most five, where ids are not used again. A right code that
  -- cannot be saved and a secret that does not decode are answered `internal` and not counted.
  pub create-spent_le :
      (env : EnrollEnv) (user : String) (email : Option String) (st : EnrollState)
      (calls : List Call) {id uri : String}
      → IsMap st.pending
      → (create_enrollment crypto cfg env user email st).0 ≡ enrolling id uri
      → All (IsFresh id) calls
      → spent id calls (create_enrollment crypto cfg env user email st).1 ≤ 5
  create-spent_le env user email st calls {id} {uri} ok made fresh =
      let (same, after, free, unenrolled) = create-enrolling crypto cfg env user email st made in
      let swept = (has_pending_for_user user env.now st.pending).1 in
      let entry = new_entry crypto cfg user env in
      let st' = (create_enrollment crypto cfg env user email st).1 in
      let stored : get id st'.pending ≡ some entry =
        rw (after, same, get-set env.uuid env.uuid entry swept, eq_refl env.uuid) refl in
      let ok' : IsMap st'.pending =
        rw after (
          IsMap-set env.uuid entry swept (IsMap-has_pending_for_user user env.now st.pending ok)) in
      let bound = spent-budget id calls st' fresh ok' (rw stored (omega arith)) in
      rw stored at bound
