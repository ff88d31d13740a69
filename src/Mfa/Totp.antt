-- ===== src/Mfa/Totp.antt =====
-- src/shared/totp.util.ts. A Buffer is the list of its bytes, and HMAC-SHA1 is a parameter. `none`
-- is a thrown error. The text of a secret is upper-cased as ASCII text is.

use mathlib.Core.Option.{map as map_option}
use zt_access_gateway.Common.{
  ℕ, zero, suc, ◌+◌, ◌-◌, ◌*◌, ◌/◌, ◌%◌, ◌^◌, ◌≤◌, String, ◌≡◌, refl, sym, subst, ◌⊎◌, inl, inr,
  Bool, true, false, ◌&&◌, ◌||◌, Option, none, some, List, [], ◌∷◌, ◌++◌, map, arith, codes, leb,
  nat_eq, if◌then◌else◌, Option-cases,
}

abbrev pub Hmac : Type 0
Hmac = List ℕ → List ℕ → List ℕ

unfoldable pub to_upper : ℕ → ℕ
to_upper c = if leb b'a' c && leb c b'z' then c - 32 else c

-- `replace(/=+$/, '')`
unfoldable pub strip_padding : List ℕ → List ℕ
strip_padding [] = []
strip_padding (c ∷ s) = elim (strip_padding s) [
  | [] ↦ if nat_eq c b'=' then [] else c ∷ []
  | d ∷ rest ↦ c ∷ d ∷ rest
]

-- `BASE32_CHARS.indexOf(ch)`: A to Z, then 2 to 7.
unfoldable pub base32_index : ℕ → Option ℕ
base32_index c =
    if leb b'A' c && leb c b'Z'
    then some (c - b'A')
    else if leb b'2' c && leb c b'7'
    then some (c - b'2' + 26)
    else none

-- `buf << 5` drops what leaves 32 bits.
unfoldable pub decode_from : ℕ → ℕ → List ℕ → Option (List ℕ)
decode_from buf bits [] = some []
decode_from buf bits (c ∷ s) = elim (base32_index c) [
  | none ↦ none
  | some index ↦
      let wider = (buf * 32) % 2 ^ 32 + index in
      let emitting = decode_from wider (bits + 5 - 8) s in
      let waiting = decode_from wider (bits + 5) s in
      if leb 8 (bits + 5)
      then map_option (λ out. ((wider / 2 ^ (bits + 5 - 8)) % 256) ∷ out) emitting
      else waiting
]

unfoldable pub base32_decode : String → Option (List ℕ)
unfolding codes decode_from strip_padding to_upper
base32_decode input = decode_from 0 0 (strip_padding (map to_upper (codes input)))

abbrev pub byte_at : ℕ → List ℕ → ℕ
byte_at n [] = 0
byte_at zero (b ∷ bytes) = b
byte_at (suc n) (b ∷ bytes) = byte_at n bytes

-- `writeUInt32BE`
unfoldable pub uint32_be : ℕ → List ℕ
uint32_be n = ((n / 2 ^ 24) % 256) ∷ ((n / 2 ^ 16) % 256) ∷ ((n / 2 ^ 8) % 256) ∷ (n % 256) ∷ []

-- `toString().padStart(6, '0')` of a number below 1000000.
unfoldable pub six_digits : ℕ → List ℕ
six_digits n =
    (48 + (n / 100000) % 10)
    ∷ (48 + (n / 10000) % 10)
    ∷ (48 + (n / 1000) % 10)
    ∷ (48 + (n / 100) % 10)
    ∷ (48 + (n / 10) % 10)
    ∷ (48 + n % 10)
    ∷ []

unfoldable pub hotp : Hmac → List ℕ → ℕ → List ℕ
unfolding six_digits uint32_be
hotp hmac_sha1 key counter =
    let mac = hmac_sha1 key (uint32_be (counter / 2 ^ 32) ++ uint32_be (counter % 2 ^ 32)) in
    let offset = byte_at 19 mac % 16 in
    let word =
      byte_at offset mac * 2 ^ 24
      + byte_at (offset + 1) mac * 2 ^ 16
      + byte_at (offset + 2) mac * 2 ^ 8
      + byte_at (offset + 3) mac in
    six_digits ((word % 2 ^ 31) % 1000000)

unfoldable pub current_counter : ℕ → ℕ
current_counter now = now / 30000

unfoldable pub generate : Hmac → String → ℕ → Option (List ℕ)
generate hmac_sha1 secret now =
    map_option (λ key. hotp hmac_sha1 key (current_counter now)) (base32_decode secret)

unfoldable pub codes_eq : List ℕ → List ℕ → Bool
codes_eq [] [] = true
codes_eq [] (d ∷ t) = false
codes_eq (c ∷ s) [] = false
codes_eq (c ∷ s) (d ∷ t) = nat_eq c d && codes_eq s t

-- The counter before 0 does not fit a 32-bit word, and writing it throws.
unfoldable pub verify : Hmac → List ℕ → String → ℕ → Option Bool
verify hmac_sha1 token secret now = elim (base32_decode secret) [
  | none ↦ none
  | some key ↦
      let t = current_counter now in
      if nat_eq t 0
      then none
      else some (
          codes_eq (hotp hmac_sha1 key (t - 1)) token
          || codes_eq (hotp hmac_sha1 key t) token
          || codes_eq (hotp hmac_sha1 key (t + 1)) token)
]

codes_eq-same : (s : List ℕ) → codes_eq s s ≡ true
unfolding codes_eq
codes_eq-same [] = refl
codes_eq-same (c ∷ s) = ground (arith, codes_eq-same s)

abbrev Accepts : Hmac → List ℕ → List ℕ → ℕ → Type 0
Accepts hmac_sha1 key token t =
    (codes_eq (hotp hmac_sha1 key (t - 1)) token
      || codes_eq (hotp hmac_sha1 key t) token
      || codes_eq (hotp hmac_sha1 key (t + 1)) token)
    ≡ true

near_cases : (k t : ℕ) → 1 ≤ t → k ≤ t + 1 → t ≤ k + 1 → (k ≡ t) ⊎ (t ≡ k + 1) ⊎ (k ≡ t + 1)
near_cases k t late before after = ground arith

hotp-Accepts :
    (hmac_sha1 : Hmac) (key : List ℕ) (k t : ℕ)
    → 1 ≤ t
    → k ≤ t + 1
    → t ≤ k + 1
    → Accepts hmac_sha1 key (hotp hmac_sha1 key k) t
hotp-Accepts hmac_sha1 key k t late before after =
    let same = codes_eq-same (hotp hmac_sha1 key k) in
    elim (near_cases k t late before after) [
      | inl e ↦ ground (arith, same, e)
      | inr (inl e) ↦
          subst (Accepts hmac_sha1 key (hotp hmac_sha1 key k)) (sym e) (ground (arith, same))
      | inr (inr e) ↦ ground (arith, same, e)
    ]

-- A code that was generated for a secret verifies against it in the time step of its generation,
-- in the step before it and in the step after it, from the second step of the clock on.
pub generate-verify :
    (hmac_sha1 : Hmac) (secret : String) (made now : ℕ) {token : List ℕ}
    → generate hmac_sha1 secret made ≡ some token
    → 30000 ≤ now
    → made / 30000 ≤ now / 30000 + 1
    → now / 30000 ≤ made / 30000 + 1
    → verify hmac_sha1 token secret now ≡ some true
unfolding generate verify current_counter
generate-verify hmac_sha1 secret made now {token} g late before after =
    elim (Option-cases (base32_decode secret)) [
      | inl bad ↦ absurd (ground arith)
      | inr (key, good) ↦
          let accepts =
            hotp-Accepts hmac_sha1 key (made / 30000) (now / 30000) (omega arith) before after in
          let made_token : token ≡ hotp hmac_sha1 key (made / 30000) = ground arith in
          ground (arith, accepts)
    ]
