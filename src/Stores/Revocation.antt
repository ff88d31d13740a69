-- ===== src/Stores/Revocation.antt =====
-- src/auth/token-revocation.service.ts: the list of revoked token ids. `now` is `Date.now()`.
pub mod Expiry
use zt_access_gateway.Common.{
  ℕ, String, Bool, true, false, Option, none, some, List, leb, if◌then◌else◌, length,
}
use zt_access_gateway.JsMap.{get, set, delete}

pub record RevocationEntry : Type 0 where
  pub expires_at : ℕ
  pub user_id : String

abbrev pub Blacklist : Type 0
Blacklist = List (String × RevocationEntry)

unfoldable pub revoke : String → ℕ → String → Blacklist → Blacklist
revoke jti expires_at user_id m = set jti (record { expires_at = expires_at; user_id = user_id }) m

unfoldable pub is_revoked : String → ℕ → Blacklist → Bool × Blacklist
is_revoked jti now m = elim (get jti m) [
  | none ↦ (false, m)
  | some entry ↦ if leb entry.expires_at now then (false, delete jti m) else (true, m)
]

unfoldable pub get_entry : String → ℕ → Blacklist → Option RevocationEntry × Blacklist
get_entry jti now m = elim (get jti m) [
  | none ↦ (none, m)
  | some entry ↦ if leb entry.expires_at now then (none, delete jti m) else (some entry, m)
]

unfoldable pub size : Blacklist → ℕ
size m = length m
