-- ===== src/Mfa/Base32/Symbols.antt =====
-- src/shared/totp.util.ts: the characters that an encoding consists of.
use zt_access_gateway.Common.{
  ℕ, zero, suc, ◌+◌, ◌-◌, ◌*◌, ◌/◌, ◌%◌, ◌^◌, ◌≡◌, refl, inl, inr, false, List, [], ◌∷◌, ◌++◌, map,
  arith, ltb, leb, nat_eq, Bool-cases, All,
}
use zt_access_gateway.Mfa.Totp.{to_upper, strip_padding}
use zt_access_gateway.Mfa.Base32.{base32_char, drain, encode_from}

-- Upper-casing leaves a symbol as it is, and it is no padding.
abbrev pub IsSymbol : ℕ → Type 0
IsSymbol c = (to_upper c ≡ c) × (nat_eq c b'=' ≡ false)

base32_char-IsSymbol : (n : ℕ) → IsSymbol (base32_char (n % 32))
unfolding base32_char to_upper
base32_char-IsSymbol n = (ground arith, ground arith)

All-append : (xs ys : List ℕ) → All IsSymbol xs → All IsSymbol ys → All IsSymbol (xs ++ ys)
All-append [] ys h k = k
All-append (x ∷ xs) ys h k = (h.0, All-append xs ys h.1 k)

drain-All : (rounds buf bits : ℕ) → All IsSymbol (drain rounds buf bits).0
unfolding drain
drain-All zero buf bits = tt
drain-All (suc rounds) buf bits = elim (Bool-cases (leb 5 bits)) [
  | inl more ↦
      rw more (base32_char-IsSymbol (buf / 2 ^ (bits - 5)), drain-All rounds buf (bits - 5))
  | inr done ↦ rw done tt
]

pub encode_from-All : (buf bits : ℕ) (bytes : List ℕ) → All IsSymbol (encode_from buf bits bytes)
unfolding encode_from
encode_from-All buf bits [] = elim (Bool-cases (ltb 0 bits)) [
  | inl more ↦ rw more (base32_char-IsSymbol ((buf * 2 ^ (5 - bits)) % 2 ^ 32), tt)
  | inr done ↦ rw done tt
]
encode_from-All buf bits (byte ∷ bytes) =
    let wider = (buf * 256) % 2 ^ 32 + byte in
    let drained = drain 3 wider (bits + 8) in
    All-append drained.0 (encode_from wider drained.1 bytes) (drain-All 3 wider (bits + 8))
      (encode_from-All wider drained.1 bytes)

pub map-to_upper : (s : List ℕ) → All IsSymbol s → map to_upper s ≡ s
map-to_upper [] h = refl
map-to_upper (c ∷ s) h = rw (h.0.0, map-to_upper s h.1) refl

pub strip_padding-All : (s : List ℕ) → All IsSymbol s → strip_padding s ≡ s
unfolding strip_padding
strip_padding-All [] h = refl
strip_padding-All (c ∷ []) h = rw h.0.1 refl
strip_padding-All (c ∷ d ∷ s) h = rw (strip_padding-All (d ∷ s) h.1) refl
