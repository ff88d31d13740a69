-- ===== src/Hashcash/Service/RoundTrip.antt =====
-- src/hashcash/hashcash.service.ts: an issued challenge can be redeemed, once, by its owner.
use zt_access_gateway.Common.{
  ℕ, ◌+◌, ◌/◌, ◌≤◌, ◌<◌, String, ◌≡◌, refl, ◌∙◌, ◌≢◌, ◌⊎◌, true, false, some, arith, eq_iff,
}
use zt_access_gateway.Stores.Nonces
use zt_access_gateway.Hashcash.Util.{difficulty_for_score, count_leading_zero_bits}
use zt_access_gateway.Hashcash.Service.{
  NoncePayload, Crypto, Config, State, hash_solution, text_length, ttl_sec, new_payload, seal,
  issue_challenge, verify_payload, verify_parts, verify_solution, identity_mismatch, verified,
  rejected,
}
use zt_access_gateway.Hashcash.Service.Codec.{HasNoDot, parse_nonce-concat}
use zt_access_gateway.Hashcash.Service.Verification.{marked, verify_payload_complete}

-- What issuing relies on, at one payload: base64url is decoded to what was encoded, uses no dot
-- and keeps bytes that are there; JSON is parsed to what was printed; equal bytes compare equal.
pub record IsFaithful (c : Crypto) (secret : String) (p : NoncePayload) : Type 0 where
  pub payload_decodes :
      c.base64url_decode (c.base64url_encode (c.json_stringify p)) ≡ c.json_stringify p
  pub mac_decodes :
      c.base64url_decode (c.base64url_encode (c.hmac secret (c.json_stringify p)))
      ≡ c.hmac secret (c.json_stringify p)
  pub no_dot : HasNoDot (c.base64url_encode (c.hmac secret (c.json_stringify p)))
  pub payload_there : c.base64url_encode (c.json_stringify p) ≢ ""
  pub mac_there : c.base64url_encode (c.hmac secret (c.json_stringify p)) ≢ ""
  pub parses : c.json_parse (c.json_stringify p) ≡ some p
  pub same_bytes :
      c.bytes_eq (c.hmac secret (c.json_stringify p)) (c.hmac secret (c.json_stringify p)) ≡ true

-- A sealed payload reaches the payload checks as it was sealed.
verify-seal :
    (c : Crypto) (cfg : Config) (p : NoncePayload) (solution : String) (score : ℕ)
    (user device : String) (now_ms : ℕ) (st : State)
    → IsFaithful c cfg.hmac_secret p
    → 1 ≤ text_length solution
    → text_length solution ≤ 256
    → verify_solution c cfg (seal c cfg p) solution score user device now_ms st
      ≡ verify_payload c cfg (seal c cfg p) solution score user device now_ms p st
unfolding verify_solution verify_parts seal
verify-seal c cfg p solution score user device now_ms st f long short =
    let bytes = c.json_stringify p in
    let mac = c.hmac cfg.hmac_secret bytes in
    let parsed =
      parse_nonce-concat (c.base64url_encode bytes) (c.base64url_encode mac) f.no_dot
        f.payload_there f.mac_there in
    ground (arith, parsed, f.payload_decodes, f.mac_decodes, f.parses, f.same_bytes)

module _ (c : Crypto) (cfg : Config) (user device : String) (score issued_ms now_ms : ℕ)
    (solution : String) where
  abbrev pub nonce : String
  nonce = seal c cfg (new_payload cfg user device score issued_ms)

  -- A challenge that was issued to a user and device is accepted from them, at a score with the
  -- same difficulty and before it expires, with any solution of 1 to 256 characters that has the
  -- zeros asked for, if the store does not report the nonce as used; the answer is the time of
  -- issue, and the nonce is marked.
  pub issue-verify :
      (live_score : ℕ) (st : State)
      → IsFaithful c cfg.hmac_secret (new_payload cfg user device score issued_ms)
      → 1 ≤ text_length solution
      → text_length solution ≤ 256
      → difficulty_for_score score cfg.difficulty_min cfg.difficulty_max
        ≡ difficulty_for_score live_score cfg.difficulty_min cfg.difficulty_max
      → now_ms / 1000 < issued_ms / 1000 + ttl_sec cfg
      → (Nonces.has nonce (now_ms / 1000) st.nonce_store).0 ≡ false
      → difficulty_for_score score cfg.difficulty_min cfg.difficulty_max
        ≤ count_leading_zero_bits (hash_solution c nonce solution)
      → verify_solution c cfg
          (issue_challenge c cfg user device score issued_ms st).0.nonce
          solution
          live_score
          user
          device
          now_ms
          st
        ≡ (
          verified (issued_ms / 1000),
          marked c cfg nonce solution live_score user device now_ms
              (new_payload cfg user device score issued_ms)
              st,
        )
  unfolding issue_challenge
  issue-verify live_score st f long short same early fresh zeros =
      verify-seal c cfg (new_payload cfg user device score issued_ms) solution live_score user
        device now_ms st f long short
      ∙ verify_payload_complete c cfg nonce solution live_score user device now_ms
          (new_payload cfg user device score issued_ms) st
          (unfold new_payload in
            record {
              owner = refl;
              device_bound = refl;
              unexpired = early;
              difficulty = same;
              unused = fresh;
              zeros = zeros;
            })

  -- From any other user, or another device, the same nonce is refused as `identity_mismatch`, and
  -- the nonce store does not change.
  pub issue-verify_other :
      (thief other_device : String) (live_score : ℕ) (st : State)
      → IsFaithful c cfg.hmac_secret (new_payload cfg user device score issued_ms)
      → 1 ≤ text_length solution
      → text_length solution ≤ 256
      → (user ≢ thief) ⊎ (device ≢ other_device)
      → let r =
          verify_solution c cfg
            (issue_challenge c cfg user device score issued_ms st).0.nonce
            solution
            live_score
            thief
            other_device
            now_ms
            st in
        (r.0 ≡ rejected identity_mismatch) × (r.1.nonce_store ≡ st.nonce_store)
  unfolding issue_challenge
  issue-verify_other thief other_device live_score st f long short stolen =
      rw
        (verify-seal c cfg (new_payload cfg user device score issued_ms) solution live_score thief
          other_device now_ms st f long short)
        (unfold verify_payload new_payload in
          (
            ground (arith, eq_iff user thief, eq_iff device other_device),
            ground (arith, eq_iff user thief, eq_iff device other_device),
          ))
