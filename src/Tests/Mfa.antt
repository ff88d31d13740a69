-- ===== src/Tests/Mfa.antt =====
-- Runs of src/mfa with a library that signs by naming the token's id.
use zt_access_gateway.Common.{
  ℕ, suc, ◌≤◌, ◌<◌, String, ◌≡◌, refl, ◌⊎◌, true, ◌&&◌, none, some, List, [], ◌∷◌, arith, ◌==◌, ltb,
  nat_eq, if◌then◌else◌,
}
use zt_access_gateway.Gateway.{rate_limited, created, refused}
use zt_access_gateway.Mfa
use zt_access_gateway.Mfa.{
  MfaTokenClaims, Library, Env, ChallengeRow, MfaState, get_challenge, get_token, get_secret,
  count_recent, create_challenge, fingerprint, insert_mfa_token, new_claims, new_row, mint,
  verify_secret, verify_totp, validate_row, validate_mfa_token, fingerprint_mismatch,
  mfa_rate_limited, minted, valid, not_valid,
}
use zt_access_gateway.Mfa.Tokens.{
  IsValidFor, validate_mfa_token-IsValidFor, mint-validate_mfa_token,
}
use zt_access_gateway.Mfa.Limits.{create_challenge-limit, IsChecked, Fails, verify_totp-IsChecked}

abbrev config : Mfa.Config
config = record {
  challenge_ttl_ms = 300;
  token_ttl_ms = 5000;
  rate_limit_max = 2;
  rate_limit_window_ms = 1000;
}

abbrev env_at : ℕ → Env
env_at t = record { now = t; up = λ n. true; uuid = λ n. if nat_eq n 1 then "j1" else "c1" }

abbrev phone_claims : MfaTokenClaims
phone_claims = record {
  sub = "alice";
  jti = "j1";
  device_id = "phone";
  fp_hash = "alice|phone|10.0.0.7";
  is_mfa = true;
  exp = 6;
}

abbrev library : Library
library = record {
  sign = λ claims. claims.jti;
  jwt_verify = λ t now. if t == "j1" && ltb now 6000 then some phone_claims else none;
  sha256_hex = λ s. s;
  aes_gcm_decrypt = λ s. some s;
  totp_verify = λ code secret now. code == "123456";
}

abbrev start_state : MfaState
start_state = record {
  challenges =
      record { challenge_id = "c0"; user_id = "alice"; expires_at = 1200; created_at = 900 } ∷ [];
  tokens = [];
  secrets = ("alice", "s3cret") ∷ [];
  events = [];
}

abbrev minted_state : MfaState
minted_state = (mint library config (env_at 1000) "alice" "phone" "10.0.0.7" start_state).1

minted_here :
    (verify_totp library config
      (env_at 1000)
      "c0"
      "123456"
      "alice"
      "10.0.0.7"
      "phone"
      start_state).0
    ≡ minted "j1" 6000
unfolding verify_totp verify_secret mint get_challenge get_secret insert_mfa_token new_claims
    new_row get_token fingerprint
minted_here = refl

mint_here :
    (mint library config (env_at 1000) "alice" "phone" "10.0.0.7" start_state).0 ≡ minted "j1" 6000
unfolding mint insert_mfa_token new_claims new_row get_token fingerprint
mint_here = refl

signed_here :
    library.jwt_verify "j1" 2000
    ≡ some (new_claims library config (env_at 1000) "alice" "phone" "10.0.0.7")
unfolding new_claims fingerprint
signed_here = refl

unused_id : get_token "j1" start_state.tokens ≡ none
unfolding get_token
unused_id = refl

mint-validate_mfa_token_example :
    (validate_mfa_token library config (env_at 2000) "j1" "alice" "phone" "10.0.0.8" minted_state).0
    ≡ (if fingerprint library config (env_at 1000) "alice" "phone" "10.0.0.8"
          == fingerprint library config (env_at 1000) "alice" "phone" "10.0.0.7"
        then valid (new_claims library config (env_at 1000) "alice" "phone" "10.0.0.7")
        else not_valid fingerprint_mismatch)
mint-validate_mfa_token_example =
    mint-validate_mfa_token library config (env_at 1000) "alice" "phone" "10.0.0.7" "alice" "phone"
      "10.0.0.8" start_state (env_at 2000) {mfa_token = "j1"} {expires_at = 6000} mint_here
      unused_id signed_here (omega arith) refl

valid_here :
    (validate_mfa_token library config (env_at 2000) "j1" "alice" "phone" "10.0.0.7" minted_state).0
    ≡ valid phone_claims
unfolding validate_mfa_token validate_row mint insert_mfa_token new_claims new_row get_token
    fingerprint
valid_here = refl

validate_mfa_token-IsValidFor_example :
    IsValidFor library config
      (env_at 2000)
      "j1"
      "alice"
      "phone"
      "10.0.0.7"
      minted_state
      phone_claims
    × ((validate_mfa_token library config
          (env_at 2000)
          "j1"
          "alice"
          "phone"
          "10.0.0.7"
          minted_state).1
        ≡ minted_state)
validate_mfa_token-IsValidFor_example =
    validate_mfa_token-IsValidFor library config (env_at 2000) "j1" "alice" "phone" "10.0.0.7"
      minted_state {claims = phone_claims} valid_here

create_challenge-limit_example :
    let r = create_challenge config (env_at 1000) "alice" start_state in
    let n = λ (u : String) (rows : List ChallengeRow). count_recent u 1000 1000 rows in
    ((n "alice" start_state.challenges < 2)
      × (r.0 ≡ created "c1" 1300)
      × ((u : String)
          → n u r.1.challenges ≡ (
              if "alice" == u
              then suc (n u start_state.challenges)
              else n u start_state.challenges))
      × (r.1.events ≡ []))
    ⊎ ((2 ≤ n "alice" start_state.challenges)
        × (r.0 ≡ refused rate_limited)
        × (r.1.challenges ≡ start_state.challenges)
        × (r.1.events ≡ mfa_rate_limited "alice" ∷ []))
create_challenge-limit_example =
    create_challenge-limit config (env_at 1000) "alice" start_state refl (omega arith)

-- A challenge of bob's serves alice.
abbrev bobs_state : MfaState
bobs_state = record start_state {
  challenges =
      record { challenge_id = "c0"; user_id = "bob"; expires_at = 1100; created_at = 800 } ∷ [];
}

verify_totp-IsChecked_example :
    let r =
      verify_totp library config
        (env_at 1000)
        "c0"
        "123456"
        "alice"
        "10.0.0.7"
        "phone"
        bobs_state in
    (IsChecked library (env_at 1000) "c0" "123456" "alice" bobs_state
      × (r ≡ (
        minted
            (library.sign (new_claims library config (env_at 1000) "alice" "phone" "10.0.0.7"))
            6000,
        record bobs_state {
          tokens = new_row library config (env_at 1000) "alice" "phone" "10.0.0.7" ∷ [];
        },
      )))
    ⊎ ((IsChecked library (env_at 1000) "c0" "123456" "alice" bobs_state → ⊥)
        × Fails library config (env_at 1000) "123456" "alice" "10.0.0.7" "phone" bobs_state r)
verify_totp-IsChecked_example =
    verify_totp-IsChecked library config (env_at 1000) "123456" "alice" "10.0.0.7" "phone"
      bobs_state "c0" refl refl refl unused_id
