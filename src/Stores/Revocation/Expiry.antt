-- ===== src/Stores/Revocation/Expiry.antt =====
-- src/auth/token-revocation.service.ts: a revoked token id stays revoked until the token expires,
-- through every later use of the store.
use zt_access_gateway.Common.{
  ℕ, ◌≤◌, String, ◌≡◌, ◌≢◌, ◌⊎◌, inl, none, some, List, [], ◌∷◌, arith, eq_iff, ltb, if◌then◌else◌,
  All,
}
use zt_access_gateway.JsMap.{get, get-set, get-delete}
use zt_access_gateway.Stores.Revocation.{RevocationEntry, Blacklist, revoke, is_revoked, get_entry}

-- A later call of the store, with the time of the call where it reads the clock.
pub data Call : Type 0 where
  revokes : String → ℕ → String → Call
  tests : String → ℕ → Call
  reads : String → ℕ → Call

unfoldable pub call : Blacklist → Call → Blacklist
call m (revokes j expires_at user) = revoke j expires_at user m
call m (tests j now) = (is_revoked j now m).1
call m (reads j now) = (get_entry j now m).1

unfoldable pub call_all : Blacklist → List Call → Blacklist
call_all m [] = m
call_all m (c ∷ rest) = call_all (call m c) rest

-- The call is made by the time `now`, and does not revoke k again.
abbrev pub Precedes : String → ℕ → Call → Type 0
Precedes k now (revokes j expires_at user) = j ≢ k
Precedes k now (tests j t) = t ≤ now
Precedes k now (reads j t) = t ≤ now

-- The entry of k is there, or has been evicted because it expired.
abbrev Tracks : String → RevocationEntry → ℕ → Blacklist → Type 0
Tracks k e now m = (get k m ≡ some e) ⊎ ((get k m ≡ none) × (e.expires_at ≤ now))

call-Tracks :
    (k : String) (e : RevocationEntry) (now : ℕ) (m : Blacklist) (c : Call)
    → Precedes k now c
    → Tracks k e now m
    → Tracks k e now (call m c)
unfolding call revoke is_revoked get_entry
call-Tracks k e now m (revokes j expires_at user) p h =
    ground (arith, get-set j k (record { expires_at = expires_at; user_id = user }) m, eq_iff j k)
call-Tracks k e now m (tests j t) p h = ground (arith, get-delete j k m, eq_iff j k)
call-Tracks k e now m (reads j t) p h = ground (arith, get-delete j k m, eq_iff j k)

call_all-Tracks :
    (k : String) (e : RevocationEntry) (now : ℕ) (calls : List Call) (m : Blacklist)
    → All (Precedes k now) calls
    → Tracks k e now m
    → Tracks k e now (call_all m calls)
unfolding call_all
call_all-Tracks k e now [] m p h = h
call_all-Tracks k e now (c ∷ rest) m p h =
    call_all-Tracks k e now rest (call m c) p.1 (call-Tracks k e now m c p.0 h)

-- After `revoke(jti, exp, user)` and any further calls made by the time `now` that do not revoke
-- `jti` again, `isRevoked(jti)` at `now` answers true exactly when `now` is before `exp`, and
-- `getEntry` returns the recorded owner exactly then.
pub revoke-is_revoked :
    (jti user : String) (exp now : ℕ) (m : Blacklist) (calls : List Call)
    → All (Precedes jti now) calls
    → ((is_revoked jti now (call_all (revoke jti exp user m) calls)).0 ≡ ltb now exp)
      × ((get_entry jti now (call_all (revoke jti exp user m) calls)).0
          ≡ (if ltb now exp then some (record { expires_at = exp; user_id = user }) else none))
unfolding is_revoked get_entry
revoke-is_revoked jti user exp now m calls p =
    let e : RevocationEntry = record { expires_at = exp; user_id = user } in
    let start : Tracks jti e now (revoke jti exp user m) =
      unfold revoke in inl (ground (arith, get-set jti jti e m, eq_iff jti jti)) in
    let end = call_all-Tracks jti e now calls (revoke jti exp user m) p start in
    (ground (arith, end), ground (arith, end))
