-- ===== src/Stores/Fingerprints/Expiry.antt =====
-- src/fingerprint/fingerprint.store.ts: what the blacklist answers, and the size that it reports.
use zt_access_gateway.Common.{
  ℕ, ◌+◌, String, ◌≡◌, refl, inl, inr, Bool, false, none, some, List, ◌∷◌, arith, eq_iff, ltb, leb,
  if◌then◌else◌, Bool-cases, Option-cases,
}
use zt_access_gateway.JsMap.{get, set, get-set, get-delete}
use zt_access_gateway.Stores.Fingerprints.{
  BlacklistEntry, FingerprintStore, add, is_blacklisted, is_terminal, size, clear,
}

-- `isBlacklisted` and `isTerminal` at `now` answer by the entry that `add` wrote at the time `t`,
-- until `ttlMs` after `t`; from then on both answer false, and the read has dropped the entry.
pub add-is_terminal :
    (fp : String) (ttl_ms t now : ℕ) (terminal : Bool) (s : FingerprintStore)
    → ((is_blacklisted fp now (add fp ttl_ms terminal t s)).0 ≡ ltb now (t + ttl_ms))
      × ((is_terminal fp now (add fp ttl_ms terminal t s)).0
          ≡ (if ltb now (t + ttl_ms) then terminal else false))
      × (get fp (is_terminal fp now (add fp ttl_ms terminal t s)).1.blacklist ≡ (
          if ltb now (t + ttl_ms)
          then some (record { expires_at = t + ttl_ms; terminal = terminal })
          else none))
unfolding is_blacklisted is_terminal add
add-is_terminal fp ttl_ms t now terminal s =
    let e : BlacklistEntry = record { expires_at = t + ttl_ms; terminal = terminal } in
    let stored = get-set fp fp e s.blacklist in
    let gone = get-delete fp fp (set fp e s.blacklist) in
    (
      ground (arith, stored, eq_iff fp fp),
      ground (arith, stored, eq_iff fp fp),
      ground (arith, stored, gone, eq_iff fp fp),
    )

-- The gauge is up to date: what was emitted last is the number of entries.
abbrev pub IsReported : FingerprintStore → Type 0
IsReported s = (older : List ℕ) × (s.emitted ≡ size s ∷ older)

is_blacklisted-IsReported :
    (fp : String) (now : ℕ) (s : FingerprintStore)
    → IsReported s
    → IsReported (is_blacklisted fp now s).1
unfolding is_blacklisted size
is_blacklisted-IsReported fp now s (older, h) = elim (Option-cases (get fp s.blacklist)) [
  | inl gone ↦ rw (gone, is_blacklisted) (older, h)
  | inr (e, found) ↦ elim (Bool-cases (leb e.expires_at now)) [
    | inl late ↦ rw (found, is_blacklisted) (rw late (s.emitted, refl))
    | inr early ↦ rw (found, is_blacklisted) (rw early (older, h))
  ]
]

is_terminal-IsReported :
    (fp : String) (now : ℕ) (s : FingerprintStore)
    → IsReported s
    → IsReported (is_terminal fp now s).1
unfolding is_terminal size
is_terminal-IsReported fp now s (older, h) = elim (Option-cases (get fp s.blacklist)) [
  | inl gone ↦ rw (gone, is_terminal) (older, h)
  | inr (e, found) ↦ elim (Bool-cases (leb e.expires_at now)) [
    | inl late ↦ rw (found, is_terminal) (rw late (s.emitted, refl))
    | inr early ↦ rw (found, is_terminal) (rw early (older, h))
  ]
]

-- Each operation leaves the gauge up to date: `add` and `clear` always emit, and the two reads
-- emit whenever they drop an entry.
pub IsReported-size :
    (fp : String) (ttl_ms now : ℕ) (terminal : Bool) (s : FingerprintStore)
    → IsReported s
    → IsReported (add fp ttl_ms terminal now s)
      × IsReported (clear s)
      × IsReported (is_blacklisted fp now s).1
      × IsReported (is_terminal fp now s).1
unfolding add clear size
IsReported-size fp ttl_ms now terminal s h = (
  (s.emitted, refl),
  (s.emitted, refl),
  is_blacklisted-IsReported fp now s h,
  is_terminal-IsReported fp now s h,
)
