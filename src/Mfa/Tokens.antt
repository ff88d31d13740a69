-- ===== src/Mfa/Tokens.antt =====
-- src/mfa/mfa-challenger.service.ts: what a valid MFA token has established, and that a minted
-- token is valid for the caller that it was minted for.
use zt_access_gateway.Common.{
  ℕ, ◌+◌, ◌<◌, String, ◌≡◌, refl, inl, inr, true, false, Option, none, some, ◌∷◌, arith, ◌==◌,
  eq_iff, if◌then◌else◌, Option-cases,
}
use zt_access_gateway.Mfa.{
  MfaTokenClaims, Library, Config, Env, MfaTokenRow, MfaState, get_token, fingerprint,
  insert_mfa_token, new_claims, new_row, mint, validate_row, validate_mfa_token,
  fingerprint_mismatch, minted, valid, not_valid,
}

module _ (lib : Library) (cfg : Config) (env : Env) where
  -- The token was signed as an MFA token, and its row is neither revoked nor expired and carries
  -- the fingerprint of the caller.
  pub record IsValidFor (mfa_token user device ip : String) (st : MfaState)
      (claims : MfaTokenClaims) : Type 0 where
    pub row : MfaTokenRow
    pub signed : lib.jwt_verify mfa_token env.now ≡ some claims
    pub typed : claims.is_mfa ≡ true
    pub stored : get_token claims.jti st.tokens ≡ some row
    pub unrevoked : row.is_revoked ≡ false
    pub unexpired : env.now < row.expires_at
    pub bound : row.fingerprint_hash ≡ fingerprint lib cfg env user device ip

  validate_row-valid :
      (o : Option MfaTokenRow) (payload : MfaTokenClaims) (current : String) (st : MfaState)
      {claims : MfaTokenClaims}
      → (validate_row lib cfg env o payload current st).0 ≡ valid claims
      → (row : MfaTokenRow) × (o ≡ some row)
        × (payload ≡ claims)
        × (row.is_revoked ≡ false)
        × (env.now < row.expires_at)
        × (row.fingerprint_hash ≡ current)
        × ((validate_row lib cfg env o payload current st).1 ≡ st)
  unfolding validate_row
  validate_row-valid none payload current st h = cc
  validate_row-valid (some row) payload current st h = (
    row,
    refl,
    ground arith,
    ground arith,
    ground arith,
    ground (arith, eq_iff current row.fingerprint_hash),
    ground arith,
  )

  -- An MFA token is accepted only with the claims of its signed payload, of the MFA type, whose
  -- row is stored, neither revoked nor expired, and carries the fingerprint of the caller's user,
  -- device and address; and accepting it changes nothing.
  pub validate_mfa_token-IsValidFor :
      (mfa_token user device ip : String) (st : MfaState) {claims : MfaTokenClaims}
      → (validate_mfa_token lib cfg env mfa_token user device ip st).0 ≡ valid claims
      → IsValidFor mfa_token user device ip st claims
        × ((validate_mfa_token lib cfg env mfa_token user device ip st).1 ≡ st)
  unfolding validate_mfa_token
  validate_mfa_token-IsValidFor mfa_token user device ip st {claims} h =
      elim (Option-cases (lib.jwt_verify mfa_token env.now)) [
        | inl bad ↦ absurd (ground arith)
        | inr (payload, good) ↦
            let o = get_token payload.jti st.tokens in
            let current = fingerprint lib cfg env user device ip in
            let typed : payload.is_mfa ≡ true = ground arith in
            let reached : validate_mfa_token lib cfg env mfa_token user device ip st
                ≡ validate_row lib cfg env o payload current st =
              ground arith in
            let (row, stored, same, unrevoked, unexpired, bound, kept) =
              validate_row-valid o payload current st {claims = claims} (rw reached at h) in
            (
              record {
                row = row;
                signed = rw same at good;
                typed = rw same at typed;
                stored = rw same at stored;
                unrevoked = unrevoked;
                unexpired = unexpired;
                bound = bound;
              },
              rw reached kept,
            )
      ]

  mint_fresh :
      (user device ip : String) (st : MfaState) {mfa_token : String} {expires_at : ℕ}
      → (mint lib cfg env user device ip st).0 ≡ minted mfa_token expires_at
      → get_token (env.uuid 1) st.tokens ≡ none
      → ((mint lib cfg env user device ip st).1.tokens
          ≡ new_row lib cfg env user device ip ∷ st.tokens)
        × (expires_at ≡ env.now + cfg.token_ttl_ms)
  unfolding mint insert_mfa_token new_row
  mint_fresh user device ip st h fresh = ground arith

  -- A token minted under a fresh id is accepted, with the claims that were signed, from every
  -- caller with the fingerprint that it was minted for, at every time before it expires at which
  -- its signature verifies and the database answers; any other caller is refused.
  pub mint-validate_mfa_token :
      (user device ip user' device' ip' : String) (st : MfaState) (later : Env) {mfa_token : String}
      {expires_at : ℕ}
      → (mint lib cfg env user device ip st).0 ≡ minted mfa_token expires_at
      → get_token (env.uuid 1) st.tokens ≡ none
      → lib.jwt_verify mfa_token later.now ≡ some (new_claims lib cfg env user device ip)
      → later.now < expires_at
      → later.up 0 ≡ true
      → (validate_mfa_token lib cfg later mfa_token user' device' ip'
          (mint lib cfg env user device ip st).1).0
        ≡ (if fingerprint lib cfg env user' device' ip' == fingerprint lib cfg env user device ip
            then valid (new_claims lib cfg env user device ip)
            else not_valid fingerprint_mismatch)
  unfolding validate_mfa_token validate_row new_claims new_row get_token fingerprint
  mint-validate_mfa_token user device ip user' device' ip' st later h fresh good early up =
      let (rows, ends) = mint_fresh user device ip st h fresh in
      simp (validate_mfa_token, good, up, rows) (ground (arith, eq_iff (env.uuid 1) (env.uuid 1)))
