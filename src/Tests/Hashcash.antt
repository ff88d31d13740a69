-- ===== src/Tests/Hashcash.antt =====
-- Runs of src/hashcash with a small model of its cryptography, faithful at one payload.
use zt_access_gateway.Common.{
  ◌+◌, ◌≤◌, ◌<◌, String, ◌≡◌, refl, inl, Bool, true, false, ◌&&◌, none, some, [], ◌∷◌, arith, ◌==◌,
  eq_iff, nat_eq, if◌then◌else◌,
}
use zt_access_gateway.JsMap.{get}
use zt_access_gateway.Stores.Nonces
use zt_access_gateway.Hashcash.Util.{difficulty_for_score, count_leading_zero_bits}
use zt_access_gateway.Hashcash.Util.Zeros.{
  digest_bits, leading_zeros, count_leading_zero_bits-leading_zeros,
}
use zt_access_gateway.Hashcash.Service
use zt_access_gateway.Hashcash.Service.{
  NoncePayload, Bytes, Crypto, hash_solution, split_last_dot, parse_nonce, ttl_sec, new_payload,
  seal, issue_challenge, verify_unused, verify_payload, verify_parts, verify_solution, length_bound,
  identity_mismatch, verified, rejected,
}
use zt_access_gateway.Hashcash.Service.Verification.{marked, IsAccepted, verify_solution_sound}
use zt_access_gateway.Hashcash.Service.RoundTrip.{
  IsFaithful, nonce, issue-verify, issue-verify_other,
}

abbrev pub config : Service.Config
config = record {
  hmac_secret = "secret";
  challenge_ttl_ms = 60000;
  difficulty_min = 4;
  difficulty_max = 12;
}

abbrev issued_payload : NoncePayload
issued_payload = new_payload config "alice" "phone" 800000 1000000

abbrev same_bytes_test : Bytes → Bytes → Bool
same_bytes_test [] [] = true
same_bytes_test [] (b ∷ bs) = false
same_bytes_test (a ∷ as') [] = false
same_bytes_test (a ∷ as') (b ∷ bs) = nat_eq a b && same_bytes_test as' bs

-- The mac of bytes is 2 before them; digests start with nine zeros.
abbrev small_crypto : Crypto
small_crypto = record {
  base64url_encode = λ bs. elim bs [ [] ↦ "" | b ∷ rest ↦ if nat_eq b 1 then "p" else "m" ];
  base64url_decode = λ s. if s == "p" then 1 ∷ [] else if s == "m" then 2 ∷ 1 ∷ [] else [];
  hmac = λ secret bs. 2 ∷ bs;
  bytes_eq = same_bytes_test;
  json_stringify = λ p. 1 ∷ [];
  json_parse =
      λ bs. elim bs [ [] ↦ none | b ∷ rest ↦ if nat_eq b 1 then some issued_payload else none ];
  sha256 = λ s. 0 ∷ 96 ∷ [];
}

abbrev fresh_state : Service.State
fresh_state = record {
  nonce_store = record { capacity = 2; store = ("old", 5000) ∷ [] };
  total = [];
  solve_seconds = [];
}

faithful : IsFaithful small_crypto "secret" issued_payload
faithful = record {
  payload_decodes = refl;
  mac_decodes = refl;
  no_dot = ((λ e. omega arith), tt);
  payload_there = λ e. ground (arith, eq_iff "p" "");
  mac_there = λ e. ground (arith, eq_iff "m" "");
  parses = refl;
  same_bytes = refl;
}

abbrev the_nonce : String
the_nonce = nonce small_crypto config "alice" "phone" 800000 1000000 1010000 "42"

difficulty_here : difficulty_for_score 800000 4 12 ≡ 8
unfolding difficulty_for_score
difficulty_here = refl

unused_here : (Nonces.has the_nonce 1010 fresh_state.nonce_store).0 ≡ false
unfolding Nonces.has seal get
unused_here = refl

solved_here :
    difficulty_for_score 800000 4 12
    ≤ count_leading_zero_bits (hash_solution small_crypto the_nonce "42")
unfolding count_leading_zero_bits hash_solution difficulty_for_score
solved_here = omega arith

early_here : 1010 < 1000 + ttl_sec config
unfolding ttl_sec
early_here = omega arith

issue-verify_example :
    verify_solution small_crypto config
      (issue_challenge small_crypto config "alice" "phone" 800000 1000000 fresh_state).0.nonce
      "42"
      800000
      "alice"
      "phone"
      1010000
      fresh_state
    ≡ (
      verified 1000,
      marked small_crypto config the_nonce "42" 800000 "alice" "phone" 1010000 issued_payload
          fresh_state,
    )
issue-verify_example =
    issue-verify small_crypto config "alice" "phone" 800000 1000000 1010000 "42" 800000 fresh_state
      faithful (omega arith) (omega arith) refl early_here unused_here solved_here

-- The state of the store in which the nonce has been used.
abbrev used_state : Service.State
used_state =
    marked small_crypto config the_nonce "42" 800000 "alice" "phone" 1010000 issued_payload
      fresh_state

issue-verify_other_example :
    ((verify_solution small_crypto config
        (issue_challenge small_crypto config "alice" "phone" 800000 1000000 fresh_state).0.nonce
        "42"
        800000
        "mallory"
        "phone"
        1010000
        fresh_state).0
      ≡ rejected identity_mismatch)
    × ((verify_solution small_crypto config
          (issue_challenge small_crypto config "alice" "phone" 800000 1000000 fresh_state).0.nonce
          "42"
          800000
          "mallory"
          "phone"
          1010000
          fresh_state).1.nonce_store
        ≡ fresh_state.nonce_store)
issue-verify_other_example =
    issue-verify_other small_crypto config "alice" "phone" 800000 1000000 1010000 "42" "mallory"
      "phone" 800000 fresh_state faithful (omega arith) (omega arith)
      (inl (λ e. ground (arith, eq_iff "alice" "mallory")))

accepted_here :
    (verify_solution small_crypto config the_nonce "42" 800000 "alice" "phone" 1010000
      fresh_state).0
    ≡ verified 1000
unfolding verify_solution verify_parts verify_payload verify_unused parse_nonce split_last_dot seal
    new_payload ttl_sec difficulty_for_score count_leading_zero_bits hash_solution Nonces.has get
accepted_here = refl

verify_solution_sound_example :
    IsAccepted small_crypto config the_nonce "42" 800000 "alice" "phone" 1010000 fresh_state (
      verify_solution small_crypto config the_nonce "42" 800000 "alice" "phone" 1010000 fresh_state)
verify_solution_sound_example =
    verify_solution_sound small_crypto config the_nonce "42" 800000 "alice" "phone" 1010000
      fresh_state {iat = 1000} accepted_here

refused_here :
    (verify_solution small_crypto config the_nonce "" 800000 "alice" "phone" 1010000 fresh_state).0
    ≡ rejected length_bound
unfolding verify_solution
refused_here = refl

count_leading_zero_bits-leading_zeros_example :
    count_leading_zero_bits (0 ∷ 96 ∷ []) ≡ leading_zeros (digest_bits (0 ∷ 96 ∷ []))
count_leading_zero_bits-leading_zeros_example =
    count_leading_zero_bits-leading_zeros (0 ∷ 96 ∷ []) (omega arith, (omega arith, tt))
