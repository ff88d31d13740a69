-- ===== src/Mfa/Enrollment/Budget.antt =====
-- src/mfa/mfa-enroller.service.ts: the codes that an enrollment has left, call by call.
use zt_access_gateway.Common.{
  ℕ, ◌+◌, ◌-◌, ◌≤◌, ◌<◌, String, ◌≡◌, refl, ◌≢◌, ◌⊎◌, inl, inr, true, false, Option, none, some,
  arith, ◌==◌, eq_iff, leb, if◌then◌else◌, Bool-cases,
}
use zt_access_gateway.JsMap.{get, set, delete, get-set, get-delete}
use zt_access_gateway.Mfa.Pending.{
  PendingEnrollment, Pending, set_pending, increment_attempts, has_pending_for_user, IsMap,
  get-has_pending_for_user, IsMap-set, IsMap-delete, IsMap-has_pending_for_user,
}
use zt_access_gateway.Mfa.Enrollment.{
  EnrollCrypto, EnrollConfig, EnrollEnv, EnrollState, enroll_max_attempts, is_enrolled,
  create_enrollment, count_failure, enrolling,
}

abbrev pub budget_of : Option PendingEnrollment → ℕ
budget_of none = 0
budget_of (some entry) = enroll_max_attempts - entry.attempts

abbrev pub IsOpen : Option PendingEnrollment → Type 0
IsOpen none = Unit
IsOpen (some entry) = entry.attempts < enroll_max_attempts

-- Between m and m' at most n codes fewer are left for the enrollment.
abbrev pub Spends : String → ℕ → Pending → Pending → Type 0
Spends id n m m' =
    IsMap m' × IsOpen (get id m') × (n + budget_of (get id m') ≤ budget_of (get id m))

pub Spends-nothing : (id : String) (m : Pending) → IsMap m → IsOpen (get id m) → Spends id 0 m m
Spends-nothing id m ok opened = (ok, opened, omega arith)

pub Spends-delete :
    (id k : String) (m : Pending) → IsMap m → IsOpen (get id m) → Spends id 0 m (delete k m)
Spends-delete id k m ok opened = (
  IsMap-delete k m ok,
  rw (get-delete k id m) (ground arith),
  rw (get-delete k id m) (ground arith),
)

Spends-swept :
    (id user : String) (now : ℕ) (m : Pending)
    → IsMap m
    → IsOpen (get id m)
    → Spends id 0 m (has_pending_for_user user now m).1
Spends-swept id user now m ok opened =
    let ok' = IsMap-has_pending_for_user user now m ok in
    elim (get-has_pending_for_user user id now m ok) [
      | inl kept ↦ rw kept (ok', opened, omega arith)
      | inr gone ↦ rw gone (ok', tt, omega arith)
    ]

Spends-set :
    (id k : String) (v : PendingEnrollment) (m m' : Pending)
    → k ≢ id
    → Spends id 0 m m'
    → Spends id 0 m (set k v m')
Spends-set id k v m m' other spent = (
  IsMap-set k v m' spent.0,
  rw (get-set k id v m') (ground (arith, eq_iff k id, spent)),
  rw (get-set k id v m') (ground (arith, eq_iff k id, spent)),
)

-- The amount that a told answer about k costs id.
abbrev pub cost : String → String → ℕ
cost k id = if k == id then 1 else 0

-- The entry that an answer told about still has a code left.
found-left :
    (id k : String) (m : Pending) {entry : PendingEnrollment}
    → get k m ≡ some entry
    → (k == id) ≡ true
    → IsOpen (get id m)
    → (entry.attempts < enroll_max_attempts)
      × (budget_of (get id m) ≡ enroll_max_attempts - entry.attempts)
found-left id k m {entry} found same opened =
    let here : get id m ≡ some entry = ground (arith, eq_iff k id, found) in
    (rw here at opened, rw here refl)

pub Spends-told :
    (id k : String) (m : Pending) {entry : PendingEnrollment}
    → get k m ≡ some entry
    → IsMap m
    → IsOpen (get id m)
    → Spends id (cost k id) m (delete k m)
Spends-told id k m {entry} found ok opened = elim (Bool-cases (k == id)) [
  | inl same ↦ (
    IsMap-delete k m ok,
    rw (get-delete k id m, same) tt,
    rw (get-delete k id m, same) (omega (arith, found-left id k m found same opened)),
  )
  | inr other ↦ rw other (Spends-delete id k m ok opened)
]

Spends-get :
    (id : String) (n : ℕ) (m m' : Pending) (o : Option PendingEnrollment)
    → IsMap m'
    → get id m' ≡ o
    → IsOpen o
    → n + budget_of o ≤ budget_of (get id m)
    → Spends id n m m'
Spends-get id n m m' o ok e opened le = rw e (ok, opened, le)

Spends-counted :
    (id k : String) (entry : PendingEnrollment) (m : Pending)
    → get k m ≡ some entry
    → IsMap m
    → IsOpen (get id m)
    → let counted : PendingEnrollment = record entry { attempts = entry.attempts + 1 } in
      let m' = set k counted m in
      (entry.attempts + 1 < enroll_max_attempts → Spends id (cost k id) m m')
      × Spends id (cost k id) m (delete k m')
Spends-counted id k entry m found ok opened =
    let counted : PendingEnrollment = record entry { attempts = entry.attempts + 1 } in
    let m' = set k counted m in
    let ok' = IsMap-set k counted m ok in
    elim (Bool-cases (k == id)) [
      | inl same ↦
          let left = found-left id k m found same opened in
          (
            λ more.
                Spends-get id (cost k id) m m' (some counted) ok'
                  (rw (get-set k id counted m, same) refl) more (rw same (omega (arith, left))),
            Spends-get id (cost k id) m (delete k m') none (IsMap-delete k m' ok')
                (rw (get-delete k id m', same) refl) tt (rw same (omega (arith, left))),
          )
      | inr other ↦ (
        λ more.
            Spends-get id (cost k id) m m' (get id m) ok' (rw (get-set k id counted m, other) refl)
              opened (rw other (omega arith)),
        Spends-get id (cost k id) m (delete k m') (get id m) (IsMap-delete k m' ok')
            (rw (get-delete k id m', other, get-set k id counted m, other) refl) opened
            (rw other (omega arith)),
      )
    ]

module _ (crypto : EnrollCrypto) (cfg : EnrollConfig) where
  abbrev pub new_entry : String → EnrollEnv → PendingEnrollment
  new_entry user env = record {
    user_id = user;
    secret = env.secret;
    expires_at = env.now + cfg.enroll_pending_ttl_ms;
    attempts = 0;
  }

  create-pending :
      (user : String) (email : Option String) (env : EnrollEnv) (st : EnrollState)
      → let swept = (has_pending_for_user user env.now st.pending).1 in
        let after = (create_enrollment crypto cfg env user email st).1.pending in
        (after ≡ swept) ⊎ ((v : PendingEnrollment) × (after ≡ set env.uuid v swept))
  unfolding create_enrollment set_pending
  create-pending user email env st =
      elim (Bool-cases (has_pending_for_user user env.now st.pending).0) [
        | inl busy ↦ inl (rw busy refl)
        | inr free ↦ elim (Bool-cases (env.up 0)) [
          | inl up ↦ elim (Bool-cases (is_enrolled crypto cfg env (get user st.secrets))) [
            | inl enrolled ↦ inl (rw (free, up, enrolled) refl)
            | inr new ↦ inr (new_entry user env, rw (free, up, new) refl)
          ]
          | inr down ↦ inl (rw (free, down) refl)
        ]
      ]

  pub Spends-create :
      (id user : String) (email : Option String) (env : EnrollEnv) (st : EnrollState)
      → env.uuid ≢ id
      → IsMap st.pending
      → IsOpen (get id st.pending)
      → Spends id 0 st.pending (create_enrollment crypto cfg env user email st).1.pending
  Spends-create id user email env st fresh ok opened =
      let swept = Spends-swept id user env.now st.pending ok opened in
      elim (create-pending user email env st) [
        | inl e ↦ rw e swept
        | inr (v, e) ↦ rw e (
            Spends-set id env.uuid v st.pending (has_pending_for_user user env.now st.pending).1
              fresh swept)
      ]

  count_failure-pending :
      (env : EnrollEnv) (k user : String) (st : EnrollState) {entry : PendingEnrollment}
      → get k st.pending ≡ some entry
      → let counted = set k (record entry { attempts = entry.attempts + 1 }) st.pending in
        (count_failure crypto cfg env k user st).1.pending
        ≡ (if leb enroll_max_attempts (entry.attempts + 1) then delete k counted else counted)
  unfolding count_failure increment_attempts
  count_failure-pending env k user st {entry} found = ground arith

  pub Spends-failure :
      (env : EnrollEnv) (id k user : String) (st : EnrollState) {entry : PendingEnrollment}
      → get k st.pending ≡ some entry
      → IsMap st.pending
      → IsOpen (get id st.pending)
      → Spends id (cost k id) st.pending (count_failure crypto cfg env k user st).1.pending
  Spends-failure env id k user st {entry} found ok opened =
      let spends = Spends-counted id k entry st.pending found ok opened in
      rw (count_failure-pending env k user st found)
        elim (Bool-cases (leb enroll_max_attempts (entry.attempts + 1))) [
          | inl last ↦ rw last spends.1
          | inr more ↦ rw more (spends.0 (ground arith))
        ]

  -- An enrollment is made where the user has none pending and none confirmed.
  pub create-enrolling :
      (env : EnrollEnv) (user : String) (email : Option String) (st : EnrollState) {id uri : String}
      → (create_enrollment crypto cfg env user email st).0 ≡ enrolling id uri
      → let swept = (has_pending_for_user user env.now st.pending).1 in
        (id ≡ env.uuid)
        × ((create_enrollment crypto cfg env user email st).1
            ≡ record st { pending = set env.uuid (new_entry user env) swept })
        × ((has_pending_for_user user env.now st.pending).0 ≡ false)
        × (is_enrolled crypto cfg env (get user st.secrets) ≡ false)
  unfolding create_enrollment set_pending
  create-enrolling env user email st made = ground arith
