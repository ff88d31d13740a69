-- ===== src/Hashcash/Service/Verification.antt =====
-- src/hashcash/hashcash.service.ts: what an accepted solution has established.
use zt_access_gateway.Common.{
  ℕ, ◌/◌, ◌≤◌, ◌<◌, String, ◌≡◌, ◌⊎◌, inl, inr, true, false, some, ◌∷◌, arith, eq_iff, Option-cases,
}
use zt_access_gateway.Int.{sub_ℕ}
use zt_access_gateway.Stores.Nonces
use zt_access_gateway.Hashcash.Util.{difficulty_for_score, count_leading_zero_bits}
use zt_access_gateway.Hashcash.Service.{
  NoncePayload, Crypto, Config, Reason, VerifyResult, State, hash_solution, text_length,
  parse_nonce, verify_unused, verify_payload, verify_parts, verify_solution, verified, rejected,
  solved,
}

module _ (c : Crypto) (cfg : Config) (nonce solution : String) (live_score : ℕ)
    (user device : String) (now_ms : ℕ) where
  -- The payload is unexpired and unused, belongs to the caller, carries the difficulty of the
  -- caller's present score, and the solution has that many leading zeros.
  pub record IsSolved (payload : NoncePayload) (st : State) : Type 0 where
    pub owner : payload.sub ≡ user
    pub device_bound : payload.dev ≡ device
    pub unexpired : now_ms / 1000 < payload.exp
    pub difficulty :
        payload.diff ≡ difficulty_for_score live_score cfg.difficulty_min cfg.difficulty_max
    pub unused : (Nonces.has nonce (now_ms / 1000) st.nonce_store).0 ≡ false
    pub zeros : payload.diff ≤ count_leading_zero_bits (hash_solution c nonce solution)

  -- What an accepted solution leaves behind.
  abbrev pub marked : NoncePayload → State → State
  marked payload st = record st {
    nonce_store = Nonces.add nonce payload.exp (Nonces.has nonce (now_ms / 1000) st.nonce_store).1;
    total = solved payload.diff ∷ st.total;
    solve_seconds = sub_ℕ (now_ms / 1000) payload.iat ∷ st.solve_seconds;
  }

  verify_payload_sound :
      (payload : NoncePayload) (st : State) {iat : ℕ}
      → (verify_payload c cfg nonce solution live_score user device now_ms payload st).0
        ≡ verified iat
      → IsSolved payload st
  unfolding verify_payload verify_unused
  verify_payload_sound payload st h = record {
    owner = ground (arith, eq_iff payload.sub user);
    device_bound = ground (arith, eq_iff payload.dev device);
    unexpired = ground arith;
    difficulty = ground arith;
    unused = ground arith;
    zeros = ground arith;
  }

  pub verify_payload_complete :
      (payload : NoncePayload) (st : State)
      → IsSolved payload st
      → verify_payload c cfg nonce solution live_score user device now_ms payload st
        ≡ (verified payload.iat, marked payload st)
  unfolding verify_payload verify_unused
  verify_payload_complete payload st h =
      ground (arith, h, eq_iff payload.sub user, eq_iff payload.dev device)

  -- The nonce carries a payload under a valid mac, and the payload is solved.
  pub record IsAccepted (st : State) (result : VerifyResult × State) : Type 0 where
    pub payload_b64 : String
    pub mac_b64 : String
    pub payload : NoncePayload
    pub long : 1 ≤ text_length solution
    pub short : text_length solution ≤ 256
    pub parsed : parse_nonce nonce ≡ some (payload_b64, mac_b64)
    pub genuine :
        c.bytes_eq
          (c.hmac cfg.hmac_secret (c.base64url_decode payload_b64))
          (c.base64url_decode mac_b64)
        ≡ true
    pub decoded : c.json_parse (c.base64url_decode payload_b64) ≡ some payload
    pub is_solved : IsSolved payload st
    pub outcome : result ≡ (verified payload.iat, marked payload st)

  verify_parts_sound :
      (payload_b64 mac_b64 : String) (st : State) {iat : ℕ}
      → 1 ≤ text_length solution
      → text_length solution ≤ 256
      → parse_nonce nonce ≡ some (payload_b64, mac_b64)
      → (verify_parts c cfg nonce solution live_score user device now_ms payload_b64 mac_b64 st).0
        ≡ verified iat
      → IsAccepted st
          (verify_parts c cfg nonce solution live_score user device now_ms payload_b64 mac_b64 st)
  unfolding verify_parts
  verify_parts_sound payload_b64 mac_b64 st {iat} long short parsed h =
      elim (Option-cases (c.json_parse (c.base64url_decode payload_b64))) [
        | inl bad ↦ absurd (ground arith)
        | inr (payload, good) ↦
            let s : IsSolved payload st =
              verify_payload_sound payload st {iat = iat} (ground arith) in
            record {
              payload_b64 = payload_b64;
              mac_b64 = mac_b64;
              payload = payload;
              long = long;
              short = short;
              parsed = parsed;
              genuine = ground arith;
              decoded = good;
              is_solved = s;
              outcome = ground (arith, verify_payload_complete payload st s);
            }
      ]

  -- A solution is accepted only if it has 1 to 256 characters and the nonce is a payload under a
  -- valid mac that is owned by the caller and their device, is not expired, carries exactly the
  -- difficulty of the caller's present score, is not marked as used, and is solved to that
  -- difficulty; the nonce is then marked as used until it expires and counted as solved.
  pub verify_solution_sound :
      (st : State) {iat : ℕ}
      → (verify_solution c cfg nonce solution live_score user device now_ms st).0 ≡ verified iat
      → IsAccepted st (verify_solution c cfg nonce solution live_score user device now_ms st)
  unfolding verify_solution
  verify_solution_sound st {iat} h = elim (Option-cases (parse_nonce nonce)) [
    | inl bad ↦ absurd (ground arith)
    | inr ((payload_b64, mac_b64), parsed) ↦
        let e : verify_solution c cfg nonce solution live_score user device now_ms st
            ≡ verify_parts c cfg nonce solution live_score user device now_ms payload_b64 mac_b64
                st =
          ground arith in
        rw e (
          verify_parts_sound payload_b64 mac_b64 st {iat = iat} (ground arith) (ground arith) parsed
            (rw e at h))
  ]

  -- A refused solution never marks the nonce: the store changes at most by dropping the nonce's
  -- own expired entry.
  pub verify_solution_refused :
      (st : State) {reason : Reason}
      → (verify_solution c cfg nonce solution live_score user device now_ms st).0 ≡ rejected reason
      → let store =
          (verify_solution c cfg nonce solution live_score user device now_ms st).1.nonce_store in
        (store ≡ st.nonce_store) ⊎ (store ≡ (Nonces.has nonce (now_ms / 1000) st.nonce_store).1)
  unfolding verify_solution verify_parts verify_payload verify_unused
  verify_solution_refused st h = ground arith
