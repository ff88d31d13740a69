-- ===== src/Honeypot/Blocked.antt =====
-- src/honeypot and src/fingerprint together: what a visit to a decoy means for the client.
use zt_access_gateway.Common.{
  ℕ, ◌+◌, ◌≤◌, ◌<◌, String, ◌≡◌, refl, ap, inl, inr, Bool, true, Option, none, some, List, [], ◌∷◌,
  arith, ◌==◌, eq_iff, eq_refl, Bool-cases, All,
}
use zt_access_gateway.JsMap.{get, get-set, get-delete}
use zt_access_gateway.Request.{Request}
use zt_access_gateway.Audit.{AuditEntry, Inserted, Config}
use zt_access_gateway.Policy.Evaluator.{TrustContext}
use zt_access_gateway.Trust.{Floats, Telemetry}
use zt_access_gateway.Trust.Score.{evaluate_score}
use zt_access_gateway.Trust.Signals.{TrustConfig}
use zt_access_gateway.Honeypot.{
  RawRequest, compute_ja4h, Admitted, ja4h_middleware, TrapState, trap_and_respond, next,
  forbidden_after,
}
use zt_access_gateway.Stores.Fingerprints.{
  BlacklistEntry, FingerprintStore, add, is_blacklisted, is_terminal,
}

-- A later call of the store, with its time: another trap, or a test for a request or a score.
pub data Visit : Type 0 where
  traps tests scores : String → ℕ → Visit

abbrev pub time_of : Visit → ℕ
time_of (traps fp t) = t
time_of (tests fp t) = t
time_of (scores fp t) = t

unfoldable pub visit : ℕ → FingerprintStore → Visit → FingerprintStore
visit ttl_ms s (traps fp t) = add fp ttl_ms true t s
visit ttl_ms s (tests fp t) = (is_blacklisted fp t s).1
visit ttl_ms s (scores fp t) = (is_terminal fp t s).1

unfoldable pub visit_all : ℕ → FingerprintStore → List Visit → FingerprintStore
visit_all ttl_ms s [] = s
visit_all ttl_ms s (v ∷ rest) = visit_all ttl_ms (visit ttl_ms s v) rest

-- The fingerprint is listed as terminal, at least until the time.
abbrev IsHeld : String → ℕ → FingerprintStore → Type 0
IsHeld fp until s =
    (e : BlacklistEntry) × (get fp s.blacklist ≡ some e)
    × (until ≤ e.expires_at)
    × (e.terminal ≡ true)

-- The call comes after the trap and before the end of its time.
abbrev pub IsDuring : ℕ → ℕ → Visit → Type 0
IsDuring start now v = (start ≤ time_of v) × (time_of v ≤ now)

visit-IsHeld :
    (fp : String) (ttl_ms start now : ℕ) (s : FingerprintStore) (v : Visit)
    → now < start + ttl_ms
    → IsDuring start now v
    → IsHeld fp (start + ttl_ms) s
    → IsHeld fp (start + ttl_ms) (visit ttl_ms s v)
unfolding visit add is_blacklisted is_terminal
visit-IsHeld fp ttl_ms start now s (traps k t) late during (e, found, lasts, terminal) =
    let new : BlacklistEntry = record { expires_at = t + ttl_ms; terminal = true } in
    elim (Bool-cases (k == fp)) [
      | inl same ↦
          (new, rw (get-set k fp new s.blacklist, same) refl, omega (arith, during.0), refl)
      | inr other ↦ (e, rw (get-set k fp new s.blacklist, other) found, lasts, terminal)
    ]
visit-IsHeld fp ttl_ms start now s (tests k t) late during (e, found, lasts, terminal) =
    (e, ground (arith, get-delete k fp s.blacklist, eq_iff k fp), lasts, terminal)
visit-IsHeld fp ttl_ms start now s (scores k t) late during (e, found, lasts, terminal) =
    (e, ground (arith, get-delete k fp s.blacklist, eq_iff k fp), lasts, terminal)

visit_all-IsHeld :
    (fp : String) (ttl_ms start now : ℕ) (visits : List Visit) (s : FingerprintStore)
    → now < start + ttl_ms
    → All (IsDuring start now) visits
    → IsHeld fp (start + ttl_ms) s
    → IsHeld fp (start + ttl_ms) (visit_all ttl_ms s visits)
unfolding visit_all
visit_all-IsHeld fp ttl_ms start now [] s late during held = held
visit_all-IsHeld fp ttl_ms start now (v ∷ visits) s late during held =
    visit_all-IsHeld fp ttl_ms start now visits (visit ttl_ms s v) late during.1
      (visit-IsHeld fp ttl_ms start now s v late during.0 held)

let_in :
    (sha256_hex : String → String) (raw : RawRequest) (now : ℕ) (s : FingerprintStore)
    {req : Request} {s' : FingerprintStore}
    → ja4h_middleware sha256_hex raw now s ≡ (next req, s')
    → req.ja4h ≡ some (compute_ja4h sha256_hex raw)
unfolding ja4h_middleware
let_in sha256_hex raw now s {req} {s'} h =
    let e : next (record raw.request { ja4h = some (compute_ja4h sha256_hex raw) }) ≡ next req =
      ground arith in
    ground (arith, ap (λ a. fp_of a) e)
  where
    fp_of : Admitted → Option String
    fp_of (next r) = r.ja4h
    fp_of (forbidden_after lo hi) = none

add-IsHeld :
    (fp : String) (ttl_ms start : ℕ) (s : FingerprintStore)
    → IsHeld fp (start + ttl_ms) (add fp ttl_ms true start s)
unfolding add
add-IsHeld fp ttl_ms start s =
    let new : BlacklistEntry = record { expires_at = start + ttl_ms; terminal = true } in
    (new, rw (get-set fp fp new s.blacklist, eq_refl fp) refl, omega arith, refl)

IsHeld-listed :
    (fp : String) (until now : ℕ) (s : FingerprintStore)
    → now < until
    → IsHeld fp until s
    → ((is_blacklisted fp now s).0 ≡ true) × ((is_terminal fp now s).0 ≡ true)
unfolding is_blacklisted is_terminal
IsHeld-listed fp until now s late (e, found, lasts, terminal) = (ground arith, ground arith)

-- Once a client that the fingerprint middleware let through has visited a decoy, every request of
-- the same fingerprint is answered 403 until the blacklisting time is over, and would score 1,
-- whatever the database holds: later traps, and the tests and scores of other requests, leave the
-- entry in place.
pub trap_and_respond-blocked :
    {Db F : Type 0} (insert : AuditEntry → Db → Inserted Db) (audit_cfg : Config) (fl : Floats F)
    (trust_cfg : TrustConfig) (sha256_hex : String → String) (raw later : RawRequest)
    (ttl_ms start now : ℕ) (demo : Bool) (path : String) (st : TrapState Db) (visits : List Visit)
    (ctx : TrustContext) (up : ℕ → Bool) (tables : Telemetry F) {req : Request}
    {admitted : FingerprintStore}
    → ja4h_middleware sha256_hex raw start st.store ≡ (next req, admitted)
    → compute_ja4h sha256_hex later ≡ compute_ja4h sha256_hex raw
    → ctx.ja4h ≡ compute_ja4h sha256_hex raw
    → now < start + ttl_ms
    → All (IsDuring start now) visits
    → let trapped =
        (trap_and_respond insert audit_cfg ttl_ms demo start req path
          (record st { store = admitted })).1 in
      let store = visit_all ttl_ms trapped.store visits in
      ((ja4h_middleware sha256_hex later now store).0 ≡ forbidden_after 2000 5000)
      × ((evaluate_score fl trust_cfg ctx now up tables store).score ≡ 1000000)
trap_and_respond-blocked insert audit_cfg fl trust_cfg sha256_hex raw later ttl_ms start now demo
      path st visits ctx up tables {req} {admitted} passed same same_ctx late during =
    let fp = compute_ja4h sha256_hex raw in
    let named : req.ja4h ≡ some fp = let_in sha256_hex raw start st.store passed in
    let trapped =
      (trap_and_respond insert audit_cfg ttl_ms demo start req path
        (record st { store = admitted })).1.store in
    let caught : IsHeld fp (start + ttl_ms) trapped =
      unfold trap_and_respond in rw named (add-IsHeld fp ttl_ms start admitted) in
    let held = visit_all-IsHeld fp ttl_ms start now visits trapped late during caught in
    let (listed, terminal) =
      IsHeld-listed fp (start + ttl_ms) now (visit_all ttl_ms trapped visits) late held in
    (
      unfold ja4h_middleware in rw (same, listed) refl,
      unfold evaluate_score in rw (same_ctx, terminal) refl,
    )
