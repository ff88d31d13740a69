-- ===== src/Proxy/Dns.antt =====
-- src/proxy/dns-rebinding.guard.ts. The look-up of a name and the test `net.isIPv4` are parameters;
-- an IPv4 address is its four octets below 256.
use zt_access_gateway.Common.{
  ℕ, ◌+◌, ◌-◌, ◌*◌, ◌/◌, ◌%◌, ◌^◌, ◌<◌, String, ◌≡◌, Bool, ◌||◌, Option, none, some, List, [], ◌∷◌,
  arith, nat_eq, if◌then◌else◌,
}
use zt_access_gateway.Request.{contains}

pub record Dns : Type 0 where
  -- `none` where the look-up fails.
  pub lookup_address : String → Option String
  -- `net.isIPv4`, with the numbers that the dotted parts denote.
  pub ipv4_octets : String → Option (List ℕ)

abbrev pub blocked_exact : List String
blocked_exact = "::1" ∷ "169.254.169.254" ∷ []

-- `((acc << 8) | oct) >>> 0` from an `acc` on.
unfoldable pub uint32_from : ℕ → List ℕ → ℕ
uint32_from acc [] = acc
uint32_from acc (oct ∷ octs) = uint32_from ((acc * 256) % 2 ^ 32 + oct) octs

unfoldable pub ipv4_to_uint32 : List ℕ → ℕ
unfolding uint32_from
ipv4_to_uint32 octs = uint32_from 0 octs

-- `value & mask` for the mask of the first `bits` bits.
unfoldable pub masked : ℕ → ℕ → ℕ
masked bits value = value / 2 ^ (32 - bits) * 2 ^ (32 - bits)

unfoldable pub in_cidr : List ℕ → ℕ → ℕ → Bool
unfolding ipv4_to_uint32 masked
in_cidr octs base bits = nat_eq (masked bits (ipv4_to_uint32 octs)) (masked bits base)

abbrev pub loopback_base : ℕ
loopback_base = 127 * 2 ^ 24

pub data Guard : Type 0 where
  safe : Guard
  lookup_failed : Guard
  blocked : String → Guard

unfoldable pub assert_safe : Dns → String → Guard
unfolding in_cidr
assert_safe dns hostname = elim (dns.lookup_address hostname) [
  | none ↦ lookup_failed
  | some address ↦
      if contains address blocked_exact then blocked address else elim (dns.ipv4_octets address) [
        | none ↦ safe
        | some octs ↦ if in_cidr octs loopback_base 8 then blocked address else safe
      ]
]

-- The octets are the bytes of the number.
ipv4_to_uint32-bytes :
    (a b c d : ℕ)
    → a < 256
    → b < 256
    → c < 256
    → d < 256
    → ipv4_to_uint32 (a ∷ b ∷ c ∷ d ∷ []) ≡ ((a * 256 + b) * 256 + c) * 256 + d
unfolding ipv4_to_uint32 uint32_from
ipv4_to_uint32-bytes a b c d la lb lc ld = omega arith

masked-first : (a low : ℕ) → low < 2 ^ 24 → masked 8 (a * 2 ^ 24 + low) ≡ a * 2 ^ 24
unfolding masked
masked-first a low h = omega arith

in_cidr-loopback :
    (a b c d : ℕ)
    → a < 256
    → b < 256
    → c < 256
    → d < 256
    → in_cidr (a ∷ b ∷ c ∷ d ∷ []) loopback_base 8 ≡ nat_eq a 127
unfolding in_cidr
in_cidr-loopback a b c d la lb lc ld =
    let low = (b * 256 + c) * 256 + d in
    let sum : ipv4_to_uint32 (a ∷ b ∷ c ∷ d ∷ []) ≡ a * 2 ^ 24 + low =
      omega (arith, ipv4_to_uint32-bytes a b c d la lb lc ld) in
    rw (sum, masked-first a low (omega arith), masked-first 127 0 (omega arith)) (ground arith)

-- A name whose address has four octets is blocked exactly where the first octet is 127 or the
-- address is one of the two that are blocked by name; no other range is, the private ranges and
-- 0.0.0.0/8, which the documents list, included.
pub assert_safe-loopback :
    (dns : Dns) (hostname address : String) (a b c d : ℕ)
    → dns.lookup_address hostname ≡ some address
    → dns.ipv4_octets address ≡ some (a ∷ b ∷ c ∷ d ∷ [])
    → a < 256
    → b < 256
    → c < 256
    → d < 256
    → assert_safe dns hostname
      ≡ (if contains address blocked_exact || nat_eq a 127 then blocked address else safe)
unfolding assert_safe
assert_safe-loopback dns hostname address a b c d found octs la lb lc ld =
    let e = in_cidr-loopback a b c d la lb lc ld in ground arith
