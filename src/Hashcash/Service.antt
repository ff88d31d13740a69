-- ===== src/Hashcash/Service.antt =====
-- src/hashcash/hashcash.service.ts. A nonce is `payload.mac`, both in base64url; hashing, base64url
-- and JSON are parameters. `now_ms` is `Date.now()`. Numbers in a payload are natural numbers.
pub mod Codec
pub mod Verification
pub mod RoundTrip
use Prim.Native.Char.{code}
use zt_access_gateway.Common.{
  ℕ, suc, ◌+◌, ◌/◌, String, Bool, not, ◌||◌, Option, none, some, List, ◌∷◌, ◌==◌, concat, ltb, leb,
  nat_eq, if◌then◌else◌,
}
use zt_access_gateway.Int.{ℤ, sub_ℕ}
use zt_access_gateway.Stores.Nonces
use zt_access_gateway.Stores.Nonces.{UsedNonceStore}
use zt_access_gateway.Hashcash.Util.{difficulty_for_score, count_leading_zero_bits}

pub record NoncePayload : Type 0 where
  pub exp : ℕ
  pub diff : ℕ
  pub sub : String
  pub dev : String
  pub iat : ℕ

abbrev pub Bytes : Type 0
Bytes = List ℕ

-- node:crypto, Buffer and JSON as the service uses them. `json_parse` answers `none` where
-- `JSON.parse` throws or the shape check fails; `sha256` hashes the UTF-8 of a text.
pub record Crypto : Type 0 where
  pub base64url_encode : Bytes → String
  pub base64url_decode : String → Bytes
  pub hmac : String → Bytes → Bytes
  pub bytes_eq : Bytes → Bytes → Bool
  pub json_stringify : NoncePayload → Bytes
  pub json_parse : Bytes → Option NoncePayload
  pub sha256 : String → Bytes

pub record Config : Type 0 where
  pub hmac_secret : String
  pub challenge_ttl_ms : ℕ
  pub difficulty_min : ℕ
  pub difficulty_max : ℕ

pub record IssuedChallenge : Type 0 where
  pub nonce : String
  pub difficulty : ℕ
  pub expires_at : ℕ

pub data Reason : Type 0 where
  malformed invalid_hmac expired difficulty_mismatch : Reason
  replay length_bound insufficient_zeros identity_mismatch : Reason

pub data VerifyResult : Type 0 where
  verified : ℕ → VerifyResult
  rejected : Reason → VerifyResult

-- The labels of `zt_gateway_hashcash_total`.
pub data Counted : Type 0 where
  issued failed solved : ℕ → Counted

pub record State : Type 0 where
  pub nonce_store : UsedNonceStore
  pub total : List Counted
  pub solve_seconds : List ℤ

abbrev pub count : Counted → State → State
count c st = record st { total = c ∷ st.total }

-- `hashSolution`: the two texts are joined before hashing.
unfoldable pub hash_solution : Crypto → String → String → Bytes
hash_solution c nonce solution = c.sha256 (concat nonce solution)

-- The number of UTF-16 units of a text whose characters are all in the basic plane.
abbrev pub text_length : String → ℕ
text_length String.[] = 0
text_length (String.◌∷◌ ch s) = suc (text_length s)

-- The text before and after the last dot, if there is one.
unfoldable pub split_last_dot : String → Option (String × String)
split_last_dot String.[] = none
split_last_dot (String.◌∷◌ ch s) = elim (split_last_dot s) [
  | some (before, after) ↦ some (String.◌∷◌ ch before, after)
  | none ↦ if nat_eq (code ch) b'.' then some (String.[], s) else none
]

-- `dot <= 0 || dot === nonce.length - 1`: a part that is missing or empty.
unfoldable pub parse_nonce : String → Option (String × String)
unfolding split_last_dot
parse_nonce nonce = elim (split_last_dot nonce) [
  | none ↦ none
  | some (before, after) ↦ if before == "" || after == "" then none else some (before, after)
]

unfoldable pub ttl_sec : Config → ℕ
ttl_sec cfg = cfg.challenge_ttl_ms / 1000

unfoldable pub new_payload : Config → String → String → ℕ → ℕ → NoncePayload
unfolding ttl_sec
new_payload cfg user device score now_ms =
    let iat = now_ms / 1000 in
    record {
      exp = iat + ttl_sec cfg;
      diff = difficulty_for_score score cfg.difficulty_min cfg.difficulty_max;
      sub = user;
      dev = device;
      iat = iat;
    }

unfoldable pub seal : Crypto → Config → NoncePayload → String
seal c cfg payload =
    let bytes = c.json_stringify payload in
    concat (c.base64url_encode bytes)
      (concat "." (c.base64url_encode (c.hmac cfg.hmac_secret bytes)))

unfoldable pub issue_challenge :
    Crypto → Config → String → String → ℕ → ℕ → State → IssuedChallenge × State
unfolding new_payload seal
issue_challenge c cfg user device score now_ms st =
    let payload = new_payload cfg user device score now_ms in
    (
      record { nonce = seal c cfg payload; difficulty = payload.diff; expires_at = payload.exp },
      count (issued payload.diff) st,
    )

abbrev pub reject : Reason → ℕ → State → VerifyResult × State
reject reason label st = (rejected reason, count (failed label) st)

-- Steps 7 to 9: replay, leading zeros, and the single-use mark.
unfoldable pub verify_unused :
    Crypto → String → String → NoncePayload → ℕ → State → VerifyResult × State
unfolding hash_solution
verify_unused c nonce solution payload now_sec st =
    let (used, store) = Nonces.has nonce now_sec st.nonce_store in
    let st' = record st { nonce_store = store } in
    if used
    then reject replay payload.diff st'
    else if ltb (count_leading_zero_bits (hash_solution c nonce solution)) payload.diff
    then reject insufficient_zeros payload.diff st'
    else (
      verified payload.iat,
      record st {
        nonce_store = Nonces.add nonce payload.exp store;
        total = solved payload.diff ∷ st.total;
        solve_seconds = sub_ℕ now_sec payload.iat ∷ st.solve_seconds;
      },
    )

-- Steps 4b to 6, on a payload with a valid mac: identity, expiry, difficulty.
unfoldable pub verify_payload :
    Crypto
    → Config
    → String
    → String
    → ℕ
    → String
    → String
    → ℕ
    → NoncePayload
    → State
    → VerifyResult × State
verify_payload c cfg nonce solution live_score user device now_ms payload st =
    let now_sec = now_ms / 1000 in
    if not (payload.sub == user) || not (payload.dev == device)
    then reject identity_mismatch payload.diff st
    else if leb payload.exp now_sec
    then reject expired payload.diff st
    else if not (
        nat_eq payload.diff (difficulty_for_score live_score cfg.difficulty_min cfg.difficulty_max))
    then reject difficulty_mismatch payload.diff st
    else verify_unused c nonce solution payload now_sec st

-- Steps 3 and 4: the mac, then the payload.
unfoldable pub verify_parts :
    Crypto
    → Config
    → String
    → String
    → ℕ
    → String
    → String
    → ℕ
    → String
    → String
    → State
    → VerifyResult × State
verify_parts c cfg nonce solution live_score user device now_ms payload_b64 mac_b64 st =
    let bytes = c.base64url_decode payload_b64 in
    if not (c.bytes_eq (c.hmac cfg.hmac_secret bytes) (c.base64url_decode mac_b64))
    then reject invalid_hmac 0 st
    else elim (c.json_parse bytes) [
      | none ↦ reject malformed 0 st
      | some payload ↦ verify_payload c cfg nonce solution live_score user device now_ms payload st
    ]

unfoldable pub verify_solution :
    Crypto → Config → String → String → ℕ → String → String → ℕ → State → VerifyResult × State
verify_solution c cfg nonce solution live_score user device now_ms st =
    if ltb (text_length solution) 1 || ltb 256 (text_length solution)
    then reject length_bound 0 st
    else elim (parse_nonce nonce) [
      | none ↦ reject malformed 0 st
      | some (payload_b64, mac_b64) ↦
          verify_parts c cfg nonce solution live_score user device now_ms payload_b64 mac_b64 st
    ]
