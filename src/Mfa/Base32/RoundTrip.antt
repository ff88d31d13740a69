-- ===== src/Mfa/Base32/RoundTrip.antt =====
-- src/shared/totp.util.ts: decoding an encoding, symbol by symbol.
use zt_access_gateway.Common.{
  ℕ, ◌+◌, ◌-◌, ◌*◌, ◌/◌, ◌%◌, ◌^◌, ◌≤◌, ◌<◌, String, ◌≡◌, refl, ap, ◌∙◌, true, some, List, [], ◌∷◌,
  arith, codes, ltb, All,
}
use zt_access_gateway.Mfa.Totp.{base32_index, decode_from, base32_decode}
use zt_access_gateway.Mfa.Base32.{base32_char, drain, encode_from, base32_encode}
use zt_access_gateway.Mfa.Base32.Symbols.{encode_from-All, map-to_upper, strip_padding-All}

base32_index-base32_char : (i : ℕ) → i < 32 → base32_index (base32_char i) ≡ some i
unfolding base32_index base32_char
base32_index-base32_char i h = ground arith

-- One symbol that lets a byte out, and one that does not.
decode_emits :
    (buf bits i : ℕ) (s : List ℕ) {out : List ℕ}
    → i < 32
    → 3 ≤ bits
    → decode_from ((buf * 32) % 2 ^ 32 + i) (bits + 5 - 8) s ≡ some out
    → decode_from buf bits (base32_char i ∷ s)
      ≡ some ((((buf * 32) % 2 ^ 32 + i) / 2 ^ (bits + 5 - 8) % 256) ∷ out)
unfolding decode_from
decode_emits buf bits i s h much rest =
    let e = base32_index-base32_char i h in ground (arith, rest, e)

decode_waits :
    (buf bits i : ℕ) (s : List ℕ)
    → i < 32
    → bits < 3
    → decode_from buf bits (base32_char i ∷ s) ≡ decode_from ((buf * 32) % 2 ^ 32 + i) (bits + 5) s
unfolding decode_from
decode_waits buf bits i s h little = let e = base32_index-base32_char i h in ground (arith, e)

-- The decoder holds the first d bits of a byte, and the encoder the other e.
abbrev IsSplit : ℕ → ℕ → ℕ → ℕ → ℕ → Type 0
IsSplit d e buf_d buf_e p = (buf_d % 2 ^ d) * 2 ^ e + buf_e % 2 ^ e ≡ p

abbrev Resumes : ℕ → ℕ → List ℕ → Type 0
Resumes d e bytes =
    (buf_d buf_e p : ℕ)
    → IsSplit d e buf_d buf_e p
    → decode_from buf_d d (encode_from buf_e e bytes) ≡ some (p ∷ bytes)

abbrev Starts : List ℕ → Type 0
Starts bytes = (buf_d buf_e : ℕ) → decode_from buf_d 0 (encode_from buf_e 0 bytes) ≡ some bytes

pass_0 : (b : ℕ) (bytes : List ℕ) → b < 256 → Resumes 5 3 bytes → Starts (b ∷ bytes)
unfolding encode_from drain
pass_0 b bytes small next buf_d buf_e =
    let wider = (buf_e * 256) % 2 ^ 32 + b in
    decode_waits buf_d 0 ((wider / 8) % 32) (encode_from wider 3 bytes) (omega arith) (omega arith)
    ∙ next ((buf_d * 32) % 2 ^ 32 + (wider / 8) % 32) wider b (omega (arith, small))

-- The four places at which a byte can be split between decoder and encoder.
pass_5 : (b : ℕ) (bytes : List ℕ) → b < 256 → Resumes 7 1 bytes → Resumes 5 3 (b ∷ bytes)
unfolding encode_from drain
pass_5 b bytes small next buf_d buf_e p split =
    let wider = (buf_e * 256) % 2 ^ 32 + b in
    let s1 = (wider / 64) % 32 in
    let s2 = (wider / 2) % 32 in
    let buf1 = (buf_d * 32) % 2 ^ 32 + s1 in
    let rest = encode_from wider 1 bytes in
    let tail : decode_from buf1 2 (base32_char s2 ∷ rest) ≡ some (b ∷ bytes) =
      decode_waits buf1 2 s2 rest (omega arith) (omega arith)
      ∙ next ((buf1 * 32) % 2 ^ 32 + s2) wider b (omega (arith, small)) in
    let byte : (buf1 / 4) % 256 ≡ p = omega (arith, split, small) in
    decode_emits buf_d 5 s1 (base32_char s2 ∷ rest) {out = b ∷ bytes} (omega arith) (omega arith)
      tail
    ∙ ap (λ x. some (x ∷ b ∷ bytes)) byte

pass_7 : (b : ℕ) (bytes : List ℕ) → b < 256 → Resumes 4 4 bytes → Resumes 7 1 (b ∷ bytes)
unfolding encode_from drain
pass_7 b bytes small next buf_d buf_e p split =
    let wider = (buf_e * 256) % 2 ^ 32 + b in
    let s1 = (wider / 16) % 32 in
    let buf1 = (buf_d * 32) % 2 ^ 32 + s1 in
    let rest = encode_from wider 4 bytes in
    let byte : (buf1 / 16) % 256 ≡ p = omega (arith, split, small) in
    decode_emits buf_d 7 s1 rest {out = b ∷ bytes} (omega arith) (omega arith)
      (next buf1 wider b (omega (arith, small)))
    ∙ ap (λ x. some (x ∷ b ∷ bytes)) byte

pass_4 : (b : ℕ) (bytes : List ℕ) → b < 256 → Resumes 6 2 bytes → Resumes 4 4 (b ∷ bytes)
unfolding encode_from drain
pass_4 b bytes small next buf_d buf_e p split =
    let wider = (buf_e * 256) % 2 ^ 32 + b in
    let s1 = (wider / 128) % 32 in
    let s2 = (wider / 4) % 32 in
    let buf1 = (buf_d * 32) % 2 ^ 32 + s1 in
    let rest = encode_from wider 2 bytes in
    let tail : decode_from buf1 1 (base32_char s2 ∷ rest) ≡ some (b ∷ bytes) =
      decode_waits buf1 1 s2 rest (omega arith) (omega arith)
      ∙ next ((buf1 * 32) % 2 ^ 32 + s2) wider b (omega (arith, small)) in
    let byte : (buf1 / 2) % 256 ≡ p = omega (arith, split, small) in
    decode_emits buf_d 4 s1 (base32_char s2 ∷ rest) {out = b ∷ bytes} (omega arith) (omega arith)
      tail
    ∙ ap (λ x. some (x ∷ b ∷ bytes)) byte

pass_6 : (b : ℕ) (bytes : List ℕ) → b < 256 → Starts bytes → Resumes 6 2 (b ∷ bytes)
unfolding encode_from drain
pass_6 b bytes small next buf_d buf_e p split =
    let wider = (buf_e * 256) % 2 ^ 32 + b in
    let s1 = (wider / 32) % 32 in
    let s2 = (wider / 1) % 32 in
    let buf1 = (buf_d * 32) % 2 ^ 32 + s1 in
    let buf2 = (buf1 * 32) % 2 ^ 32 + s2 in
    let rest = encode_from wider 0 bytes in
    let byte : (buf1 / 8) % 256 ≡ p = omega (arith, split, small) in
    let last : (buf2 / 1) % 256 ≡ b = omega (arith, small) in
    let tail : decode_from buf1 3 (base32_char s2 ∷ rest) ≡ some (b ∷ bytes) =
      decode_emits buf1 3 s2 rest {out = bytes} (omega arith) (omega arith) (next buf2 wider)
      ∙ ap (λ x. some (x ∷ bytes)) last in
    decode_emits buf_d 6 s1 (base32_char s2 ∷ rest) {out = b ∷ bytes} (omega arith) (omega arith)
      tail
    ∙ ap (λ x. some (x ∷ b ∷ bytes)) byte

-- The last symbol is filled up with zeros, and the decoder leaves them.
flush :
    (d e buf_d buf_e p : ℕ)
    → 3 ≤ d
    → ltb 0 e ≡ true
    → ((buf_d * 32) % 2 ^ 32 + ((buf_e * 2 ^ (5 - e)) % 2 ^ 32) % 32) / 2 ^ (d + 5 - 8) % 256 ≡ p
    → decode_from buf_d d (encode_from buf_e e []) ≡ some (p ∷ [])
unfolding encode_from decode_from
flush d e buf_d buf_e p much left byte =
    let s1 = ((buf_e * 2 ^ (5 - e)) % 2 ^ 32) % 32 in
    rw left
      (decode_emits buf_d d s1 [] {out = []} (omega arith) much refl ∙ ap (λ x. some (x ∷ [])) byte)

abbrev AllPhases : List ℕ → Type 0
AllPhases bytes =
    Starts bytes × Resumes 5 3 bytes × Resumes 7 1 bytes × Resumes 4 4 bytes × Resumes 6 2 bytes

phases_end : AllPhases []
unfolding decode_from encode_from
phases_end = (
  λ buf_d buf_e. refl,
  λ buf_d buf_e p split. flush 5 3 buf_d buf_e p (omega arith) refl (omega (arith, split)),
  λ buf_d buf_e p split. flush 7 1 buf_d buf_e p (omega arith) refl (omega (arith, split)),
  λ buf_d buf_e p split. flush 4 4 buf_d buf_e p (omega arith) refl (omega (arith, split)),
  λ buf_d buf_e p split. flush 6 2 buf_d buf_e p (omega arith) refl (omega (arith, split)),
)

phases : (bytes : List ℕ) → All (λ b. b < 256) bytes → AllPhases bytes
phases [] small = phases_end
phases (b ∷ bytes) small =
    let (at_0, at_5, at_7, at_4, at_6) = phases bytes small.1 in
    (
      pass_0 b bytes small.0 at_5,
      pass_5 b bytes small.0 at_7,
      pass_7 b bytes small.0 at_4,
      pass_4 b bytes small.0 at_6,
      pass_6 b bytes small.0 at_0,
    )

-- Decoding a text whose characters encode some bytes gives the bytes back: the 32-bit arithmetic
-- of both loops loses none of them.
pub base32_encode-base32_decode :
    (bytes : List ℕ) (secret : String)
    → All (λ b. b < 256) bytes
    → codes secret ≡ base32_encode bytes
    → base32_decode secret ≡ some bytes
unfolding base32_encode base32_decode
base32_encode-base32_decode bytes secret small e =
    let symbols = encode_from-All 0 0 bytes in
    rw
      (
        e,
        map-to_upper (encode_from 0 0 bytes) symbols,
        strip_padding-All (encode_from 0 0 bytes) symbols,
      )
      ((phases bytes small).0 0 0)
