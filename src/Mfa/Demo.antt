-- ===== src/Mfa/Demo.antt =====
-- src/mfa/mfa-challenger.service.ts (`mintDemoMfaToken`) with src/demo-mfa/demo-mfa.controller.ts,
-- and the revocation of a token's row (`revokeMfaToken` of mfa-token.repository.ts).
use zt_access_gateway.Common.{
  ℕ, ◌+◌, String, ◌≡◌, ap, subst, ◌≢◌, inl, inr, true, Option, none, some, List, [], ◌∷◌, arith,
  ◌==◌, if◌then◌else◌, Bool-cases, Option-cases,
}
use zt_access_gateway.Request.{UserClaims, Request, extract_ip, extract_device_id}
use zt_access_gateway.Mfa.{
  MfaTokenClaims, Library, Config, Env, MfaTokenRow, MfaVerifyResult, MfaState, get_token,
  crash_verify, insert_mfa_token, new_claims, new_row, mint, validate_mfa_token, minted, valid,
}
use zt_access_gateway.Mfa.Tokens.{validate_mfa_token-IsValidFor}

module _ (lib : Library) (cfg : Config) (env : Env) where
  -- The token and its expiry; `none` where the insertion throws.
  unfoldable pub mint_demo_mfa_token :
      String → String → String → MfaState → Option (String × ℕ) × MfaState
  mint_demo_mfa_token user device ip st =
      if env.up 0
      then elim (insert_mfa_token lib cfg env (new_row lib cfg env user device ip) st.tokens) [
        | none ↦ (none, st)
        | some tokens ↦ (
          some (lib.sign (new_claims lib cfg env user device ip), env.now + cfg.token_ttl_ms),
          record st { tokens = tokens },
        )
      ]
      else (none, st)

  -- An absent device id is the empty text.
  unfoldable pub demo_mint_route : UserClaims → Request → MfaState → Option (String × ℕ) × MfaState
  unfolding mint_demo_mfa_token
  demo_mint_route user req st =
      mint_demo_mfa_token user.user_id (elim (extract_device_id req) [ none ↦ "" | some d ↦ d ])
        (extract_ip req) st

  -- What `mint` answers, where the shortcut gives or throws.
  abbrev as_verified : Option (String × ℕ) × MfaState → MfaVerifyResult × MfaState
  as_verified (none, st) = crash_verify lib cfg env st
  as_verified (some (jwt, expires_at), st) = (minted jwt expires_at, st)

  -- With the database up, the shortcut mints the token, and leaves the tables, that the full check
  -- of a code would have: it differs in what comes before, not in the token.
  pub mint_demo_mfa_token-mint :
      (user device ip : String) (st : MfaState)
      → env.up 0 ≡ true
      → env.up 2 ≡ true
      → as_verified (mint_demo_mfa_token user device ip st) ≡ mint lib cfg env user device ip st
  unfolding mint_demo_mfa_token mint
  mint_demo_mfa_token-mint user device ip st first third =
      elim (Option-cases
        (insert_mfa_token lib cfg env (new_row lib cfg env user device ip) st.tokens)) [
          | inl bad ↦ ground arith
          | inr (tokens, good) ↦ ground arith
        ]

unfoldable pub revoke_rows : String → List MfaTokenRow → List MfaTokenRow
revoke_rows jti [] = []
revoke_rows jti (row ∷ rest) =
    (if row.jti == jti then record row { is_revoked = true } else row) ∷ revoke_rows jti rest

unfoldable pub revoke_mfa_token : String → MfaState → MfaState
unfolding revoke_rows
revoke_mfa_token jti st = record st { tokens = revoke_rows jti st.tokens }

revoke_rows-get_token :
    (jti : String) (rows : List MfaTokenRow) {row : MfaTokenRow}
    → get_token jti (revoke_rows jti rows) ≡ some row
    → row.is_revoked ≡ true
unfolding revoke_rows get_token
revoke_rows-get_token jti [] h = absurd (ground arith)
revoke_rows-get_token jti (r ∷ rows) {row} h = elim (Bool-cases (r.jti == jti)) [
  | inl same ↦
      let e : record r { is_revoked = true } ≡ row = ground arith in
      ground (arith, ap (λ x. x.is_revoked) e)
  | inr other ↦ revoke_rows-get_token jti rows {row = row} (ground arith)
]

-- A token whose row has been revoked is not accepted any more, from any caller.
pub revoke_mfa_token-refused :
    (lib : Library) (cfg : Config) (env : Env) (mfa_token user device ip jti : String)
    (st : MfaState) {claims : MfaTokenClaims}
    → (validate_mfa_token lib cfg env mfa_token user device ip (revoke_mfa_token jti st)).0
      ≡ valid claims
    → claims.jti ≢ jti
unfolding revoke_mfa_token
revoke_mfa_token-refused lib cfg env mfa_token user device ip jti st {claims} h e =
    let (ok, kept) =
      validate_mfa_token-IsValidFor lib cfg env mfa_token user device ip
        (record st { tokens = revoke_rows jti st.tokens }) {claims = claims} h in
    let stored : get_token jti (revoke_rows jti st.tokens) ≡ some ok.row =
      subst (λ x. get_token x (revoke_rows jti st.tokens) ≡ some ok.row) e ok.stored in
    let gone = revoke_rows-get_token jti st.tokens stored in ground (arith, gone, ok.unrevoked)
