-- ===== src/Hashcash/Util.antt =====
-- src/hashcash/hashcash.util.ts. Scores are fixed-point numbers in millionths: 0.7 is 700000.
pub mod Difficulty
pub mod Zeros
use zt_access_gateway.Common.{
  ℕ, zero, suc, ◌+◌, ◌-◌, ◌*◌, ◌/◌, ◌%◌, List, [], ◌∷◌, ltb, nat_eq, if◌then◌else◌,
}

-- `Math.round(min + ((score - 0.7) * (max - min)) / 0.2)` times 200000, before the rounding down,
-- as a difference of two sums, since the value may be negative.
abbrev pub curve_plus : ℕ → ℕ → ℕ → ℕ
curve_plus score lo hi = 900000 * lo + score * hi + 100000

abbrev pub curve_minus : ℕ → ℕ → ℕ → ℕ
curve_minus score lo hi = score * lo + 700000 * hi

-- A negative value is below `min`, which is not negative.
unfoldable pub difficulty_for_score : ℕ → ℕ → ℕ → ℕ
difficulty_for_score score lo hi =
    let raw = (curve_plus score lo hi - curve_minus score lo hi) / 200000 in
    if ltb (curve_plus score lo hi) (curve_minus score lo hi)
    then lo
    else if ltb raw lo
    then lo
    else if ltb hi raw
    then hi
    else raw

-- `while ((b & 0x80) === 0) { count++; b <<= 1 }` on a byte that is not zero: seven rounds at most.
unfoldable pub shift_zeros : ℕ → ℕ → ℕ
shift_zeros zero b = 0
shift_zeros (suc rounds) b =
    let more = suc (shift_zeros rounds (b * 2)) in if nat_eq ((b / 128) % 2) 0 then more else 0

unfoldable pub count_leading_zero_bits : List ℕ → ℕ
unfolding shift_zeros
count_leading_zero_bits [] = 0
count_leading_zero_bits (byte ∷ rest) =
    let later = count_leading_zero_bits rest in
    if nat_eq byte 0 then 8 + later else shift_zeros 8 byte
