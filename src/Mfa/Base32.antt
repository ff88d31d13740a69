-- ===== src/Mfa/Base32.antt =====
-- src/shared/totp.util.ts (`base32Encode`): the encoding of the bytes of a fresh secret.
pub mod Symbols
pub mod RoundTrip
use zt_access_gateway.Common.{
  ℕ, zero, suc, ◌+◌, ◌-◌, ◌*◌, ◌/◌, ◌%◌, ◌^◌, List, [], ◌∷◌, ◌++◌, ltb, leb, if◌then◌else◌,
}

-- `BASE32_CHARS[index]`
unfoldable pub base32_char : ℕ → ℕ
base32_char index = if ltb index 26 then index + b'A' else index - 26 + b'2'

-- `while (bits >= 5)`: the symbols, and the bits that are left; two rounds at most.
unfoldable pub drain : ℕ → ℕ → ℕ → List ℕ × ℕ
drain zero buf bits = ([], bits)
drain (suc rounds) buf bits =
    let rest = drain rounds buf (bits - 5) in
    if leb 5 bits then (base32_char ((buf / 2 ^ (bits - 5)) % 32) ∷ rest.0, rest.1) else ([], bits)

unfoldable pub encode_from : ℕ → ℕ → List ℕ → List ℕ
unfolding drain
encode_from buf bits [] =
    if ltb 0 bits then base32_char (((buf * 2 ^ (5 - bits)) % 2 ^ 32) % 32) ∷ [] else []
encode_from buf bits (byte ∷ bytes) =
    let wider = (buf * 256) % 2 ^ 32 + byte in
    let (out, left) = drain 3 wider (bits + 8) in out ++ encode_from wider left bytes

unfoldable pub base32_encode : List ℕ → List ℕ
unfolding encode_from
base32_encode bytes = encode_from 0 0 bytes
