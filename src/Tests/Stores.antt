-- ===== src/Tests/Stores.antt =====
-- Runs of the stores of src/hashcash, src/auth and src/fingerprint.
use zt_access_gateway.Common.{
  ◌≡◌, refl, true, none, some, List, [], ◌∷◌, arith, eq_iff, ltb, if◌then◌else◌,
}
use zt_access_gateway.JsMap.{get}
use zt_access_gateway.Stores.Nonces
use zt_access_gateway.Stores.Nonces.Replay.{access_all, add-has_replay, reads, adds}
use zt_access_gateway.Stores.Revocation
use zt_access_gateway.Stores.Revocation.Expiry
use zt_access_gateway.Stores.Revocation.Expiry.{revoke-is_revoked, revokes, tests, reads}
use zt_access_gateway.Stores.Fingerprints

abbrev small_store : Nonces.UsedNonceStore
small_store = record { capacity = 2; store = ("a", 50) ∷ ("b", 70) ∷ [] }

add-has_replay_example :
    (Nonces.has "c" 60
      (access_all (Nonces.add "c" 90 small_store) (adds "d" 99 ∷ reads "a" 55 ∷ []))).0
    ≡ true
unfolding get
add-has_replay_example =
    add-has_replay "c" 90 60 small_store (adds "d" 99 ∷ reads "a" 55 ∷ []) (omega arith) refl
      ((λ e. ground (arith, eq_iff "d" "c")), (omega arith, tt)) (omega arith) (omega arith)

abbrev blacklist : Revocation.Blacklist
blacklist = ("old", record { expires_at = 40; user_id = "eve" }) ∷ []

abbrev later_calls : List Expiry.Call
later_calls = tests "tok" 60 ∷ revokes "other" 95 "bob" ∷ Expiry.Call.reads "old" 70 ∷ []

revoke-is_revoked_example :
    ((Revocation.is_revoked "tok" 80
        (Expiry.call_all (Revocation.revoke "tok" 90 "alice" blacklist) later_calls)).0
      ≡ ltb 80 90)
    × ((Revocation.get_entry "tok" 80
          (Expiry.call_all (Revocation.revoke "tok" 90 "alice" blacklist) later_calls)).0
        ≡ (if ltb 80 90 then some (record { expires_at = 90; user_id = "alice" }) else none))
revoke-is_revoked_example =
    revoke-is_revoked "tok" "alice" 90 80 blacklist later_calls
      (omega arith, ((λ e. ground (arith, eq_iff "other" "tok")), (omega arith, tt)))

abbrev fingerprints : Fingerprints.FingerprintStore
fingerprints = record {
  blacklist = ("ge11nn", record { expires_at = 40; terminal = true }) ∷ [];
  emitted = 1 ∷ [];
}
