-- ===== src/Stores/Fingerprints.antt =====
-- src/fingerprint/fingerprint.store.ts: the blacklist of JA4H fingerprints. Each operation returns
-- the sizes that it emits as FINGERPRINT_BLACKLIST_SIZE_CHANGED. `now` is `Date.now()`.
pub mod Expiry
use zt_access_gateway.Common.{
  ℕ, ◌+◌, String, Bool, true, false, none, some, List, [], ◌∷◌, leb, if◌then◌else◌, length,
}
use zt_access_gateway.JsMap.{get, set, delete}

pub record BlacklistEntry : Type 0 where
  pub expires_at : ℕ
  pub terminal : Bool

pub record FingerprintStore : Type 0 where
  pub blacklist : List (String × BlacklistEntry)
  -- The sizes emitted so far, the latest first.
  pub emitted : List ℕ

unfoldable pub emit_size : FingerprintStore → FingerprintStore
emit_size s = record s { emitted = length s.blacklist ∷ s.emitted }

unfoldable pub add : String → ℕ → Bool → ℕ → FingerprintStore → FingerprintStore
unfolding emit_size
add fp ttl_ms terminal now s = emit_size (record s {
  blacklist = set fp (record { expires_at = now + ttl_ms; terminal = terminal }) s.blacklist;
})

unfoldable pub is_blacklisted : String → ℕ → FingerprintStore → Bool × FingerprintStore
unfolding emit_size
is_blacklisted fp now s = elim (get fp s.blacklist) [
  | none ↦ (false, s)
  | some entry ↦
      if leb entry.expires_at now
      then (false, emit_size (record s { blacklist = delete fp s.blacklist }))
      else (true, s)
]

unfoldable pub is_terminal : String → ℕ → FingerprintStore → Bool × FingerprintStore
unfolding emit_size
is_terminal fp now s = elim (get fp s.blacklist) [
  | none ↦ (false, s)
  | some entry ↦
      if leb entry.expires_at now
      then (false, emit_size (record s { blacklist = delete fp s.blacklist }))
      else (entry.terminal, s)
]

unfoldable pub size : FingerprintStore → ℕ
size s = length s.blacklist

unfoldable pub clear : FingerprintStore → FingerprintStore
unfolding emit_size
clear s = emit_size (record s { blacklist = [] })
