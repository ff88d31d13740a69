-- ===== src/Request.antt =====
-- The request that the pipeline carries, with src/shared/request-context.util.ts,
-- src/auth/interfaces/user-claims.interface.ts and src/gateway/public-paths.ts. Headers are in
-- lower case, each with one text; absent properties are `none`.
pub mod Address
pub mod Paths
use Prim.Native.Char.{code}
use Prim.Native.String
use zt_access_gateway.Common.{
  ℕ, suc, ◌-◌, String, Bool, true, false, not, ◌&&◌, ◌||◌, Option, none, some, List, [], ◌∷◌, ◌==◌,
  concat, ltb, leb, nat_eq, if◌then◌else◌,
}

pub record UserClaims : Type 0 where
  pub user_id : String
  pub roles : List String
  pub jti : String
  pub exp : ℕ
  pub email : Option String
  pub session_id : Option String
  pub device_id : String

pub record Request : Type 0 where
  pub method : String
  pub original_url : String
  pub headers : List (String × String)
  pub remote_address : Option String
  -- `req['x-ja4h']`, set by the fingerprint middleware.
  pub ja4h : Option String
  -- Properties that the pipeline itself attaches.
  pub user : Option UserClaims
  pub gateway_validated : Bool
  pub trust_score : Option ℕ

unfoldable pub lookup : String → List (String × String) → Option String
lookup name [] = none
lookup name ((n, v) ∷ rest) = if n == name then some v else lookup name rest

abbrev pub header : String → Request → Option String
header name req = lookup name req.headers

-- `value || fallback`: an absent or empty text gives the fallback.
abbrev pub or_else : Option String → String → String
or_else none d = d
or_else (some s) d = if s == "" then d else s

abbrev pub in_range : ℕ → ℕ → ℕ → Bool
in_range lo hi c = leb lo c && leb c hi

abbrev pub is_digit : ℕ → Bool
is_digit c = in_range b'0' b'9' c

abbrev pub is_hex_or_colon : ℕ → Bool
is_hex_or_colon c =
    in_range b'0' b'9' c || in_range b'a' b'f' c || in_range b'A' b'F' c || nat_eq c b':'

-- `/^(\d{1,3}\.){3}\d{1,3}$/`, with the dots still to come and the digits read since the last.
unfoldable pub ipv4_from : ℕ → ℕ → String → Bool
ipv4_from dots digits String.[] = nat_eq dots 0 && leb 1 digits
ipv4_from dots digits (String.◌∷◌ c s) =
    let digit = ipv4_from dots (suc digits) s in
    let dot = ipv4_from (dots - 1) 0 s in
    if is_digit (code c)
    then (if ltb digits 3 then digit else false)
    else if nat_eq (code c) b'.' && leb 1 digits && leb 1 dots
    then dot
    else false

unfoldable pub all_hex : String → Bool
all_hex String.[] = true
all_hex (String.◌∷◌ c s) = is_hex_or_colon (code c) && all_hex s

-- `/^[0-9a-fA-F:]+$/`.
unfoldable pub is_ipv6 : String → Bool
unfolding all_hex
is_ipv6 s = not (s == "") && all_hex s

unfoldable pub is_valid_ip : String → Bool
unfolding ipv4_from is_ipv6
is_valid_ip ip = ipv4_from 3 0 ip || is_ipv6 ip

-- `split(',')[0]`.
unfoldable pub before_comma : String → String
before_comma String.[] = String.[]
before_comma (String.◌∷◌ c s) =
    let rest = before_comma s in if nat_eq (code c) b',' then String.[] else String.◌∷◌ c rest

-- The white space of ASCII, which is what `trim` finds in a header.
abbrev is_space : ℕ → Bool
is_space c = in_range 9 13 c || nat_eq c 32

unfoldable pub trim_start : String → String
trim_start String.[] = String.[]
trim_start (String.◌∷◌ c s) =
    let rest = trim_start s in if is_space (code c) then rest else String.◌∷◌ c s

-- A character stays unless it is a space with nothing but spaces after it.
unfoldable pub trim_end : String → String
trim_end String.[] = String.[]
trim_end (String.◌∷◌ c s) =
    let rest = trim_end s in
    if is_space (code c) && rest == "" then String.[] else String.◌∷◌ c rest

unfoldable pub trim : String → String
unfolding trim_start trim_end
trim s = trim_end (trim_start s)

unfoldable pub extract_ip : Request → String
unfolding lookup
extract_ip req =
    let first = trim (before_comma (or_else (header "x-forwarded-for" req) "")) in
    if not (first == "") && is_valid_ip first then first else or_else req.remote_address "unknown"

unfoldable pub extract_user_agent : Request → String
unfolding lookup
extract_user_agent req = or_else (header "user-agent" req) "unknown"

unfoldable pub extract_device_id : Request → Option String
unfolding lookup
extract_device_id req = elim (header "x-device-id" req) [
  | none ↦ none
  | some id ↦ if id == "" then none else some id
]

unfoldable pub extract_ja4h : Request → Option String
extract_ja4h req = elim req.ja4h [ none ↦ none | some v ↦ if v == "" then none else some v ]

-- `PUBLIC_PATHS`, `AUTH_ONLY_EXACT` and `HONEYPOT_PATHS` (src/honeypot/honeypot.constants.ts).
abbrev pub public_paths : List String
public_paths = "/health" ∷ "/metrics" ∷ []

abbrev pub auth_only_exact : List String
auth_only_exact =
    "/auth/revoke" ∷ "/mfa/initiate" ∷ "/mfa/verify" ∷ "/mfa/enroll" ∷ "/mfa/enroll/confirm"
    ∷ "/audit/logs" ∷ "/demo/mfa-token" ∷ []

abbrev pub auth_only_prefixes : List String
auth_only_prefixes = "/mfa/admin/enrollment" ∷ "/policy/admin" ∷ []

abbrev pub honeypot_paths : List String
honeypot_paths =
    "/wp-login.php" ∷ "/.env" ∷ "/admin/config.json" ∷ "/api/v1/debug" ∷ "/graphql/introspection"
    ∷ "/actuator/health" ∷ "/api/v1/internal/keys" ∷ []

unfoldable pub contains : String → List String → Bool
contains p [] = false
contains p (x ∷ xs) = x == p || contains p xs

-- `p.startsWith(prefix)`.
unfoldable pub starts_with : String → String → Bool
starts_with String.[] p = true
starts_with (String.◌∷◌ a s) String.[] = false
starts_with (String.◌∷◌ a s) (String.◌∷◌ b p) = nat_eq (code a) (code b) && starts_with s p

unfoldable pub some_prefix : String → List String → Bool
unfolding starts_with
some_prefix p [] = false
some_prefix p (prefix ∷ rest) =
    (p == prefix || starts_with (concat prefix "/") p) || some_prefix p rest

unfoldable pub is_auth_only_path : String → Bool
unfolding contains some_prefix
is_auth_only_path p = contains p auth_only_exact || some_prefix p auth_only_prefixes

-- The part of a URL before `?`, as `buildStageContext` and `normalizeResource` take it.
unfoldable pub before_query : String → String
before_query String.[] = String.[]
before_query (String.◌∷◌ c s) =
    let rest = before_query s in if nat_eq (code c) b'?' then String.[] else String.◌∷◌ c rest
