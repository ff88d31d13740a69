-- ===== src/Hashcash/Util/Zeros.antt =====
-- src/hashcash/hashcash.util.ts: counting leading zero bits, against the digest as a row of bits.
use zt_access_gateway.Common.{
  ℕ, zero, suc, ◌+◌, ◌/◌, ◌%◌, ◌≤◌, ◌<◌, ◌≡◌, refl, Bool, true, false, not, ◌&&◌, List, [], ◌∷◌,
  ◌++◌, arith, ltb, nat_eq, if◌then◌else◌, length, All,
}
use zt_access_gateway.Hashcash.Util.{shift_zeros, count_leading_zero_bits}

-- The bits of a byte, the highest first.
abbrev pub bits : ℕ → List Bool
bits b =
    nat_eq ((b / 128) % 2) 1
    ∷ nat_eq ((b / 64) % 2) 1
    ∷ nat_eq ((b / 32) % 2) 1
    ∷ nat_eq ((b / 16) % 2) 1
    ∷ nat_eq ((b / 8) % 2) 1
    ∷ nat_eq ((b / 4) % 2) 1
    ∷ nat_eq ((b / 2) % 2) 1
    ∷ nat_eq (b % 2) 1
    ∷ []

abbrev pub digest_bits : List ℕ → List Bool
digest_bits [] = []
digest_bits (b ∷ rest) = bits b ++ digest_bits rest

-- How many bits stand before the first one that is set.
pub leading_zeros : List Bool → ℕ
leading_zeros [] = 0
leading_zeros (true ∷ rest) = 0
leading_zeros (false ∷ rest) = suc (leading_zeros rest)

-- A test that every byte up to the given number passes.
passes : (ℕ → Bool) → ℕ → Bool
passes test zero = test 0
passes test (suc top) = if test (suc top) then passes test top else false

passes_sound : (test : ℕ → Bool) (top b : ℕ) → b ≤ top → passes test top ≡ true → test b ≡ true
unfolding passes
passes_sound test zero b le ok = rw⁻¹ (zero_of b le) ok
  where
    zero_of : (b : ℕ) → b ≤ 0 → 0 ≡ b
    zero_of b le = omega arith
passes_sound test (suc top) b le ok = ground (arith, passes_sound test top b)

leading_zeros-append :
    (xs ys : List Bool)
    → leading_zeros (xs ++ ys) ≡ (
        if ltb (leading_zeros xs) (length xs)
        then leading_zeros xs
        else length xs + leading_zeros ys)
unfolding leading_zeros
leading_zeros-append [] ys = ground arith
leading_zeros-append (true ∷ xs) ys = ground arith
leading_zeros-append (false ∷ xs) ys = ground (arith, leading_zeros-append xs ys)

-- What a byte adds to the count, computed in both ways.
byte_agrees : ℕ → Bool
unfolding leading_zeros shift_zeros
byte_agrees b =
    if nat_eq b 0
    then nat_eq (leading_zeros (bits b)) 8
    else nat_eq (leading_zeros (bits b)) (shift_zeros 8 b) && ltb (leading_zeros (bits b)) 8

byte_table : passes byte_agrees 255 ≡ true
unfolding passes byte_agrees
byte_table = refl

byte_lem : (b : ℕ) → b < 256 → byte_agrees b ≡ true
byte_lem b h = passes_sound byte_agrees 255 b (omega arith) byte_table

byte_cases :
    (b : ℕ)
    → byte_agrees b ≡ true
    → (leading_zeros (bits b) ≡ (if nat_eq b 0 then 8 else shift_zeros 8 b))
      × (nat_eq b 0 ≡ not (ltb (leading_zeros (bits b)) 8))
byte_cases b h = go (leading_zeros (bits b)) (shift_zeros 8 b) (unfold byte_agrees in h)
  where
    go :
        (l z : ℕ)
        → (if nat_eq b 0 then nat_eq l 8 else nat_eq l z && ltb l 8) ≡ true
        → (l ≡ (if nat_eq b 0 then 8 else z)) × (nat_eq b 0 ≡ not (ltb l 8))
    go l z e = ground arith

-- For a digest of bytes the loop counts the zeros in front of the first set bit of the digest.
pub count_leading_zero_bits-leading_zeros :
    (digest : List ℕ)
    → All (λ b. b < 256) digest
    → count_leading_zero_bits digest ≡ leading_zeros (digest_bits digest)
unfolding count_leading_zero_bits
count_leading_zero_bits-leading_zeros [] h = unfold leading_zeros in refl
count_leading_zero_bits-leading_zeros (b ∷ rest) h =
    let ih = count_leading_zero_bits-leading_zeros rest h.1 in
    let (same, full) = byte_cases b (byte_lem b h.0) in
    rw (leading_zeros-append (bits b) (digest_bits rest), ih)
      (go (leading_zeros (bits b)) (shift_zeros 8 b) (leading_zeros (digest_bits rest)) same full)
  where
    go :
        (l z k : ℕ)
        → l ≡ (if nat_eq b 0 then 8 else z)
        → nat_eq b 0 ≡ not (ltb l 8)
        → (if nat_eq b 0 then 8 + k else z) ≡ (if ltb l 8 then l else 8 + k)
    go l z k same full = ground arith
