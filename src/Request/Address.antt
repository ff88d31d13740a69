-- ===== src/Request/Address.antt =====
-- src/shared/request-context.util.ts: what the extracted address can be.
use Prim.Native.Char.{code}
use zt_access_gateway.Common.{
  ℕ, suc, ◌-◌, String, ◌≡◌, refl, ◌⊎◌, inl, inr, true, not, ◌&&◌, ◌||◌, arith, ◌==◌, nat_eq,
  if◌then◌else◌, Bool-cases,
}
use zt_access_gateway.Request.{
  Request, header, or_else, is_digit, is_hex_or_colon, ipv4_from, all_hex, is_ipv6, is_valid_ip,
  before_comma, trim, extract_ip,
}

-- Hexadecimal digits, colons and dots only.
abbrev pub IsAddressText : String → Type 0
IsAddressText String.[] = Unit
IsAddressText (String.◌∷◌ c s) =
    ((is_hex_or_colon (code c) || nat_eq (code c) b'.') ≡ true) × IsAddressText s

ipv4_from-IsAddressText :
    (s : String) (dots digits : ℕ) → ipv4_from dots digits s ≡ true → IsAddressText s
unfolding ipv4_from
ipv4_from-IsAddressText String.[] dots digits h = tt
ipv4_from-IsAddressText (String.◌∷◌ c s) dots digits h = elim (Bool-cases (is_digit (code c))) [
  | inl digit ↦ (ground arith, ipv4_from-IsAddressText s dots (suc digits) (ground arith))
  | inr other ↦ (ground arith, ipv4_from-IsAddressText s (dots - 1) 0 (ground arith))
]

all_hex-IsAddressText : (s : String) → all_hex s ≡ true → IsAddressText s
unfolding all_hex
all_hex-IsAddressText String.[] h = tt
all_hex-IsAddressText (String.◌∷◌ c s) h = (ground arith, all_hex-IsAddressText s (ground arith))

is_valid_ip-IsAddressText : (s : String) → is_valid_ip s ≡ true → IsAddressText s
unfolding is_valid_ip is_ipv6
is_valid_ip-IsAddressText s h = elim (Bool-cases (ipv4_from 3 0 s)) [
  | inl four ↦ ipv4_from-IsAddressText s 3 0 four
  | inr other ↦ all_hex-IsAddressText s (ground arith)
]

-- The address is made of hexadecimal digits, colons and dots only, or it is the socket's own
-- address ("unknown" where there is none): a forged header passes no other text on.
pub extract_ip-IsAddressText :
    (req : Request)
    → IsAddressText (extract_ip req) ⊎ (extract_ip req ≡ or_else req.remote_address "unknown")
unfolding extract_ip
extract_ip-IsAddressText req =
    go (trim (before_comma (or_else (header "x-forwarded-for" req) "")))
      (or_else req.remote_address "unknown")
  where
    go :
        (first socket : String)
        → let ip = if not (first == "") && is_valid_ip first then first else socket in
          IsAddressText ip ⊎ (ip ≡ socket)
    go first socket = elim (Bool-cases (not (first == "") && is_valid_ip first)) [
      | inl fits ↦ inl (rw fits (is_valid_ip-IsAddressText first (ground arith)))
      | inr bad ↦ inr (rw bad refl)
    ]
