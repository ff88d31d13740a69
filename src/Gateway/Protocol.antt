-- ===== src/Gateway/Protocol.antt =====
-- src/gateway/pipeline: the order of authorisation that the pipeline is to follow, on its log of
-- calls (newest first) and apart from the stages: how far a request has got.
pub mod Endings
pub mod Bypass
pub mod Stages
pub mod Grant
pub mod Replies
use zt_access_gateway.Common.{
  ℕ, suc, ◌≤◌, ◌<◌, String, ◌≡◌, refl, Bool, true, false, Option, some, List, [], ◌∷◌, arith,
  if◌then◌else◌,
}
use zt_access_gateway.Request.{
  UserClaims, public_paths, honeypot_paths, contains, is_auth_only_path,
}
use zt_access_gateway.Audit.{AuditEntry, allow}
use zt_access_gateway.Hashcash.Service.{verified}
use zt_access_gateway.Policy.Evaluator.{PolicyDecision, allowed, challenged}
use zt_access_gateway.Gateway.{
  Call, ok, authenticated, revocation_checked, audited, scored, overridden, solution_verified,
  decided, mfa_token_validated, forwarded,
}

pub data Phase : Type 0 where
  fresh : Phase
  identified cleared : UserClaims → Phase
  rated worked permitted persisted : UserClaims → ℕ → Phase
  ruled : UserClaims → ℕ → PolicyDecision → Phase
  answered : UserClaims → ℕ → ℕ → Phase

-- The path of the request, the score above which work is demanded, which entries the audit log has
-- accepted, and which bodies may be shown to a user for an answer of a status.
pub record Rules (Json : Type 0) : Type 1 where
  pub path : String
  pub trigger : ℕ
  pub Written : AuditEntry → Type 0
  pub Shown : UserClaims → ℕ → ℕ → Option Json → Type 0

-- The path is one that the gateway guards.
abbrev pub IsGated : String → Type 0
IsGated path = (contains path public_paths ≡ false) × (contains path honeypot_paths ≡ false)

-- The calls that take a request to a phase, where the proof of work is demanded above the trigger
-- and nothing is scored on a path that only needs authentication.
pub data Reached {Json : Type 0} (rules : Rules Json) : Phase → List Call → Type 0 where
  start : Reached rules fresh []
  identify :
      {u : UserClaims} {t : List Call}
      → IsGated rules.path
      → Reached rules fresh t
      → Reached rules (identified u) (authenticated (ok u) ∷ t)
  clear :
      {u : UserClaims} {t : List Call}
      → Reached rules (identified u) t
      → Reached rules (cleared u) (revocation_checked u.jti false ∷ t)
  rate :
      {u : UserClaims} {n : ℕ} {t : List Call}
      → is_auth_only_path rules.path ≡ false
      → Reached rules (cleared u) t
      → Reached rules (rated u n) (scored n ∷ t)
  override :
      {u : UserClaims} {n : ℕ} {t : List Call}
      → is_auth_only_path rules.path ≡ false
      → Reached rules (cleared u) t
      → Reached rules (rated u n) (overridden n ∷ t)
  spare :
      {u : UserClaims} {n : ℕ} {t : List Call}
      → n ≤ rules.trigger
      → Reached rules (rated u n) t
      → Reached rules (worked u n) t
  work :
      {u : UserClaims} {n d : ℕ} {nonce solution : String} {t : List Call}
      → rules.trigger < n
      → Reached rules (rated u n) t
      → Reached rules (worked u n) (solution_verified nonce solution n (verified d) ∷ t)
  rule :
      {u : UserClaims} {n : ℕ} {d : PolicyDecision} {t : List Call}
      → Reached rules (worked u n) t
      → Reached rules (ruled u n d) (decided d ∷ t)
  permit :
      {u : UserClaims} {n s : ℕ} {reason sub : String} {t : List Call}
      → Reached rules (ruled u n (allowed reason s sub)) t
      → Reached rules (permitted u n) t
  promoted :
      {u : UserClaims} {n s : ℕ} {reason mfa_token : String} {sub : Option String} {t : List Call}
      → Reached rules (ruled u n (challenged reason s sub)) t
      → Reached rules (permitted u n) (mfa_token_validated mfa_token u true ∷ t)
  persist :
      {u : UserClaims} {n : ℕ} {entry : AuditEntry} {t : List Call}
      → rules.Written entry
      → entry.decision ≡ allow
      → entry.user_id ≡ u.user_id
      → Reached rules (permitted u n) t
      → Reached rules (persisted u n) (audited entry true ∷ t)
  answer :
      {u : UserClaims} {n status : ℕ} {t : List Call}
      → Reached rules (persisted u n) t
      → Reached rules (answered u n status) (forwarded u n (some status) ∷ t)

abbrev pub is_forward : Call → Bool
is_forward (forwarded u n status) = true
is_forward _ = false

-- The number of requests forwarded.
unfoldable pub forwards : List Call → ℕ
forwards [] = 0
forwards (call ∷ t) = let n = forwards t in if is_forward call then suc n else n

abbrev pub forwards_of : Phase → ℕ
forwards_of (answered u n status) = 1
forwards_of _ = 0

pub Reached-forwards :
    {Json : Type 0} {rules : Rules Json} {p : Phase} {t : List Call}
    → Reached rules p t
    → forwards t ≡ forwards_of p
unfolding forwards
Reached-forwards start = refl
Reached-forwards (identify gated r) = Reached-forwards r
Reached-forwards (clear r) = Reached-forwards r
Reached-forwards (rate full r) = Reached-forwards r
Reached-forwards (override full r) = Reached-forwards r
Reached-forwards (spare le r) = Reached-forwards r
Reached-forwards (work above r) = Reached-forwards r
Reached-forwards (rule r) = Reached-forwards r
Reached-forwards (permit r) = Reached-forwards r
Reached-forwards (promoted r) = Reached-forwards r
Reached-forwards (persist w e e' r) = Reached-forwards r
Reached-forwards (answer r) = omega (arith, Reached-forwards r)
