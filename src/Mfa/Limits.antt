-- ===== src/Mfa/Limits.antt =====
-- src/mfa/mfa-challenger.service.ts: the limit on challenges, and when a code mints a token.
use zt_access_gateway.Common.{
  suc, ◌+◌, ◌≤◌, ◌<◌, String, ◌≡◌, refl, ap, ◌≢◌, ◌⊎◌, inl, inr, true, Option, none, some, List,
  ◌∷◌, arith, ◌==◌, eq_iff, ltb, if◌then◌else◌, Bool-cases, Option-cases,
}
use zt_access_gateway.Gateway.{rate_limited, created, refused}
use zt_access_gateway.Mfa.{
  Library, Config, Env, ChallengeRow, MfaReason, MfaVerifyResult, MfaState, get_challenge,
  get_token, get_secret, count_recent, create_challenge, insert_mfa_token, new_claims, new_row,
  mint, verify_secret, verify_totp, expired_challenge, unknown_user, invalid_code, mfa_rate_limited,
  minted, not_minted,
}

-- Where the database answers and the window is not empty, a challenge is created exactly if the
-- user has fewer than the maximum in the window; that adds one to the user's count and nothing to
-- any other user's. Else the table is left as it was, and the refusal is reported as
-- MFA_RATE_LIMITED.
pub create_challenge-limit :
    (cfg : Config) (env : Env) (user : String) (st : MfaState)
    → env.up 0 ≡ true
    → 0 < cfg.rate_limit_window_ms
    → let n = λ (u : String) (rows : List ChallengeRow).
      count_recent u cfg.rate_limit_window_ms env.now rows in
      let r = create_challenge cfg env user st in
      ((n user st.challenges < cfg.rate_limit_max)
        × (r.0 ≡ created (env.uuid 0) (env.now + cfg.challenge_ttl_ms))
        × ((u : String)
            → n u r.1.challenges
              ≡ (if user == u then suc (n u st.challenges) else n u st.challenges))
        × (r.1.events ≡ st.events))
      ⊎ ((cfg.rate_limit_max ≤ n user st.challenges)
          × (r.0 ≡ refused rate_limited)
          × (r.1.challenges ≡ st.challenges)
          × (r.1.events ≡ mfa_rate_limited user ∷ st.events))
unfolding create_challenge count_recent
create_challenge-limit cfg env user st up window =
    let few =
      ltb (count_recent user cfg.rate_limit_window_ms env.now st.challenges) cfg.rate_limit_max in
    elim (Bool-cases few) [
      | inl yes' ↦ inl (ground arith, ground arith, λ u. ground arith, ground arith)
      | inr no' ↦ inr (ground arith, ground arith, ground arith, ground arith)
    ]

-- A challenge stands unexpired under the id, whoever it was created for, and the code fits the
-- caller's own secret, which is neither empty nor undecipherable.
pub record IsChecked (lib : Library) (env : Env) (id code user : String) (st : MfaState)
    : Type 0 where
  pub row : ChallengeRow
  pub listed : get_challenge id st.challenges ≡ some row
  pub unexpired : env.now ≤ row.expires_at
  pub encrypted : String
  pub enrolled : get_secret user st.secrets ≡ some encrypted
  pub non_empty : encrypted ≢ ""
  pub plain : String
  pub decrypted : lib.aes_gcm_decrypt encrypted ≡ some plain
  pub non_blank : plain ≢ ""
  pub fits : lib.totp_verify code plain env.now ≡ true

module _ (lib : Library) (cfg : Config) (env : Env) (code user ip device : String)
    (st : MfaState) where
  -- No token: a refusal with its reason, and no table changed.
  abbrev pub Fails : MfaVerifyResult × MfaState → Type 0
  Fails r =
      (reason : MfaReason) × (r.0 ≡ not_minted reason)
      × (r.1.tokens ≡ st.tokens)
      × (r.1.challenges ≡ st.challenges)
      × (r.1.secrets ≡ st.secrets)

  -- The secret opens and the code fits it, for what is stored.
  record Fits (stored : Option String) : Type 0 where
    encrypted : String
    enrolled : stored ≡ some encrypted
    non_empty : encrypted ≢ ""
    plain : String
    decrypted : lib.aes_gcm_decrypt encrypted ≡ some plain
    non_blank : plain ≢ ""
    fits : lib.totp_verify code plain env.now ≡ true

  verify_secret-Fits :
      (stored : Option String)
      → let r = verify_secret lib cfg env stored code user device ip st in
        (Fits stored × (r ≡ mint lib cfg env user device ip st)) ⊎ ((Fits stored → ⊥) × Fails r)
  unfolding verify_secret
  verify_secret-Fits none =
      inr (λ f. let e = f.enrolled in cc, (unknown_user, refl, refl, refl, refl))
  verify_secret-Fits (some encrypted) = elim (Bool-cases (encrypted == "")) [
    | inl empty ↦ rw empty (
        inr (
          λ f. ground (arith, f.enrolled, f.non_empty, eq_iff encrypted ""),
          (unknown_user, refl, refl, refl, refl),
        ))
    | inr full ↦ elim (Option-cases (lib.aes_gcm_decrypt encrypted)) [
      | inl shut ↦
          rw (full, shut)
            (inr (
              λ f. ground (arith, f.enrolled, f.decrypted),
              (unknown_user, refl, refl, refl, refl),
            ))
      | inr (plain, opened) ↦ elim (Bool-cases (plain == "")) [
        | inl blank ↦
            rw (full, opened, blank)
              (inr (
                λ f. ground (arith, f.enrolled, f.decrypted, f.non_blank, eq_iff plain ""),
                (unknown_user, refl, refl, refl, refl),
              ))
        | inr real ↦ elim (Bool-cases (lib.totp_verify code plain env.now)) [
          | inl right ↦
              rw (full, opened, real, right)
                (inl (
                  record {
                    encrypted = encrypted;
                    enrolled = refl;
                    non_empty = ground (arith, eq_iff encrypted "");
                    plain = plain;
                    decrypted = opened;
                    non_blank = ground (arith, eq_iff plain "");
                    fits = right;
                  },
                  refl,
                ))
          | inr wrong ↦
              rw (full, opened, real, wrong)
                (inr (
                  λ f. ground (arith, f.enrolled, f.decrypted, f.fits),
                  (invalid_code, refl, refl, refl, refl),
                ))
        ]
      ]
    ]
  ]

  mint_here :
      env.up 2 ≡ true
      → get_token (env.uuid 1) st.tokens ≡ none
      → mint lib cfg env user device ip st ≡ (
        minted (lib.sign (new_claims lib cfg env user device ip)) (env.now + cfg.token_ttl_ms),
        record st { tokens = new_row lib cfg env user device ip ∷ st.tokens },
      )
  unfolding mint insert_mfa_token new_row
  mint_here third fresh = ground arith

  -- With the database up and a fresh id, a token is minted, signed for the caller and its row
  -- added, exactly where a challenge stands unexpired under the id, whichever user it was created
  -- for, and the code fits the caller's own secret; else the answer is a refusal and no table
  -- changes.
  pub verify_totp-IsChecked :
      (id : String)
      → env.up 0 ≡ true
      → env.up 1 ≡ true
      → env.up 2 ≡ true
      → get_token (env.uuid 1) st.tokens ≡ none
      → let r = verify_totp lib cfg env id code user ip device st in
        (IsChecked lib env id code user st
          × (r ≡ (
            minted (lib.sign (new_claims lib cfg env user device ip)) (env.now + cfg.token_ttl_ms),
            record st { tokens = new_row lib cfg env user device ip ∷ st.tokens },
          )))
        ⊎ ((IsChecked lib env id code user st → ⊥) × Fails r)
  unfolding verify_totp
  verify_totp-IsChecked id first second third fresh =
      elim (Option-cases (get_challenge id st.challenges)) [
        | inl absent ↦
            rw (first, absent)
              (inr (λ c. ground (arith, c.listed), (expired_challenge, refl, refl, refl, refl)))
        | inr (row, listed) ↦ elim (Bool-cases (ltb row.expires_at env.now)) [
          | inl old ↦
              rw (first, listed, old)
                (inr (
                  λ c.
                      let same : c.row ≡ row = ground (arith, c.listed) in
                      ground (arith, c.unexpired, ap (λ (x : ChallengeRow). x.expires_at) same),
                  (expired_challenge, refl, refl, refl, refl),
                ))
          | inr young ↦ elim (verify_secret-Fits (get_secret user st.secrets)) [
            | inl (f, e) ↦
                rw (first, listed, young, second, e, mint_here third fresh)
                  (inl (
                    record {
                      row = row;
                      listed = listed;
                      unexpired = ground arith;
                      encrypted = f.encrypted;
                      enrolled = f.enrolled;
                      non_empty = f.non_empty;
                      plain = f.plain;
                      decrypted = f.decrypted;
                      non_blank = f.non_blank;
                      fits = f.fits;
                    },
                    refl,
                  ))
            | inr (never, fails) ↦
                rw (first, listed, young, second)
                  (inr (
                    λ c. never (record {
                      encrypted = c.encrypted;
                      enrolled = c.enrolled;
                      non_empty = c.non_empty;
                      plain = c.plain;
                      decrypted = c.decrypted;
                      non_blank = c.non_blank;
                      fits = c.fits;
                    }),
                    fails,
                  ))
          ]
        ]
      ]
