-- ===== src/Gateway/Protocol/Endings.antt =====
-- src/gateway/pipeline: where a request can end, with the reply and the calls made by then.
use zt_access_gateway.Common.{
  ℕ, ◌≤◌, ◌<◌, String, ◌≡◌, refl, ◌≢◌, ◌⊎◌, true, false, Option, none, List, [], ◌∷◌,
}
use zt_access_gateway.Request.{
  UserClaims, public_paths, honeypot_paths, contains, is_auth_only_path,
}
use zt_access_gateway.Audit.{AuditDecision, AuditEntry, Raced, challenge, deny, threw}
use zt_access_gateway.Hashcash.Service.{IssuedChallenge, Reason, rejected}
use zt_access_gateway.Policy.Evaluator.{TrustContext, challenged, denied}
use zt_access_gateway.Gateway.{
  Err, AuthInvalidReason, MfaCreateResult, Call, Body, Outcome, audit_exhausted, invalid,
  rate_limited, internal, created, refused, authenticated, revocation_checked, best_effort, audited,
  challenge_issued, solution_verified, mfa_token_validated, mfa_challenge_created, forwarded,
  trust_recorded, error_body, plain_body, bypass, short_circuit, proxied, returned, raised,
}
use zt_access_gateway.Gateway.Protocol.{
  Rules, IsGated, Reached, forwards, Reached-forwards, identified, cleared, rated, worked,
  permitted, persisted, ruled, answered,
}

-- A body that the gateway itself has made.
abbrev pub IsErrorBody : {Json : Type 0} → Body Json → Type 0
IsErrorBody (error_body err fields id) = Unit
IsErrorBody (plain_body body) = ⊥

-- Why a request is turned away after its entry.
pub data Cause : Type 0 where
  no_identity is_withdrawn no_permission no_promotion : Cause

-- The calls made before the entry of a refusal is written.
pub data Turned {Json : Type 0} (rules : Rules Json) : Cause → List Call → Type 0 where
  unidentified :
      {reason : AuthInvalidReason} {message : Option String}
      → IsGated rules.path
      → Turned rules no_identity (authenticated (invalid reason message) ∷ [])
  withdrawn :
      {u : UserClaims} {t : List Call}
      → Reached rules (identified u) t
      → Turned rules is_withdrawn (revocation_checked u.jti true ∷ t)
  forbidden :
      {u : UserClaims} {n s : ℕ} {reason : String} {sub : Option String} {t : List Call}
      → Reached rules (ruled u n (denied reason s sub)) t
      → Turned rules no_permission t
  unpromoted :
      {u : UserClaims} {n s : ℕ} {reason : String} {sub : Option String} {t : List Call}
      → Reached rules (ruled u n (challenged reason s sub)) t
      → Turned rules no_promotion t
  mispromoted :
      {u : UserClaims} {n s : ℕ} {reason mfa_token : String} {sub : Option String} {t : List Call}
      → Reached rules (ruled u n (challenged reason s sub)) t
      → Turned rules no_promotion (mfa_token_validated mfa_token u false ∷ t)

-- The status of a refusal for the cause, but for a promotion.
abbrev pub refusal_status : Cause → ℕ
refusal_status no_permission = 403
refusal_status _ = 401

abbrev pub refusal_decision : Cause → AuditDecision
refusal_decision no_promotion = challenge
refusal_decision _ = deny

-- The status for what the creation of a challenge answers.
abbrev pub challenge_status : MfaCreateResult → ℕ
challenge_status (created id expires_at) = 401
challenge_status (refused rate_limited) = 429
challenge_status (refused internal) = 503

-- The refusals of the pipeline: each with its status, and the calls made by then.
pub data Refused {Json : Type 0} (rules : Rules Json) : ℕ → List Call → Type 0 where
  recorded_refusal :
      {status : ℕ} {cause : Cause} {entry : AuditEntry} {r : Raced} {t : List Call}
      → cause ≢ no_promotion
      → status ≡ refusal_status cause
      → entry.decision ≡ refusal_decision cause
      → Turned rules cause t
      → Refused rules status (best_effort entry r ∷ t)
  promotion_demanded :
      {status : ℕ} {result : MfaCreateResult} {entry : AuditEntry} {r : Raced} {t : List Call}
      → status ≡ challenge_status result
      → entry.decision ≡ challenge
      → Turned rules no_promotion t
      → Refused rules status (mfa_challenge_created result ∷ best_effort entry r ∷ t)
  work_demanded :
      {status : ℕ} {u : UserClaims} {n : ℕ} {ch : IssuedChallenge} {t : List Call}
      → status ≡ 429
      → rules.trigger < n
      → Reached rules (rated u n) t
      → Refused rules status (challenge_issued ch ∷ t)
  work_refused :
      {status : ℕ} {u : UserClaims} {n : ℕ} {ch : IssuedChallenge} {nonce solution : String}
      {reason : Reason} {t : List Call}
      → status ≡ 429
      → rules.trigger < n
      → Reached rules (rated u n) t
      → Refused rules status
          (challenge_issued ch ∷ solution_verified nonce solution n (rejected reason) ∷ t)

-- How the pipeline can end, with the calls made by then.
pub data Ended {Json : Type 0} (rules : Rules Json) : Outcome Json → List Call → Type 0 where
  -- A public or honeypot path: no service has been called.
  passed_by :
      {t : List Call}
      → (contains rules.path public_paths ≡ true) ⊎ (contains rules.path honeypot_paths ≡ true)
      → t ≡ []
      → Ended rules (returned bypass) t
  -- A path that only needs authentication.
  let_in :
      {u : UserClaims} {entry : AuditEntry} {r : Raced} {t : List Call}
      → is_auth_only_path rules.path ≡ true
      → Reached rules (cleared u) t
      → Ended rules (returned bypass) (best_effort entry r ∷ t)
  turned_away :
      {status : ℕ} {body : Body Json} {headers : List (String × String)} {t : List Call}
      → IsErrorBody body
      → Refused rules status t
      → Ended rules (returned (short_circuit status body headers)) t
  served :
      {u : UserClaims} {n status : ℕ} {body : Option Json} {t : List Call}
      → 400 ≤ status
      → rules.Shown u n status body
      → Reached rules (answered u n status) t
      → Ended rules (returned (proxied status (plain_body body))) t
  served_and_recorded :
      {u : UserClaims} {n status : ℕ} {body : Option Json} {tctx : TrustContext} {t : List Call}
      → status < 400
      → rules.Shown u n status body
      → Reached rules (answered u n status) t
      → Ended rules (returned (proxied status (plain_body body))) (trust_recorded tctx n ∷ t)
  -- The authentication, the score or the policy threw.
  not_authenticated : {e : Err} → IsGated rules.path → Ended rules (raised e) []
  not_scored :
      {e : Err} {u : UserClaims} {t : List Call}
      → is_auth_only_path rules.path ≡ false
      → Reached rules (cleared u) t
      → Ended rules (raised e) t
  not_decided :
      {e : Err} {u : UserClaims} {n : ℕ} {t : List Call}
      → Reached rules (worked u n) t
      → Ended rules (raised e) t
  -- No attempt to write the entry succeeded.
  refusal_lost :
      {cause : Cause} {entry : AuditEntry} {t : List Call}
      → Turned rules cause t
      → Ended rules (raised audit_exhausted) (best_effort entry threw ∷ t)
  entrance_lost :
      {u : UserClaims} {entry : AuditEntry} {t : List Call}
      → is_auth_only_path rules.path ≡ true
      → Reached rules (cleared u) t
      → Ended rules (raised audit_exhausted) (best_effort entry threw ∷ t)
  grant_lost :
      {u : UserClaims} {n : ℕ} {entry : AuditEntry} {t : List Call}
      → Reached rules (permitted u n) t
      → Ended rules (raised audit_exhausted) (audited entry false ∷ t)
  unreachable :
      {e : Err} {u : UserClaims} {n : ℕ} {t : List Call}
      → Reached rules (persisted u n) t
      → Ended rules (raised e) (forwarded u n none ∷ t)
  -- The recording of the trust context threw.
  not_recorded :
      {e : Err} {u : UserClaims} {n status : ℕ} {t : List Call}
      → status < 400
      → Reached rules (answered u n status) t
      → Ended rules (raised e) t

pub Turned-forwards :
    {Json : Type 0} {rules : Rules Json} {cause : Cause} {t : List Call}
    → Turned rules cause t
    → forwards t ≡ 0
unfolding forwards
Turned-forwards (unidentified gated) = refl
Turned-forwards (withdrawn r) = Reached-forwards r
Turned-forwards (forbidden r) = Reached-forwards r
Turned-forwards (unpromoted r) = Reached-forwards r
Turned-forwards (mispromoted r) = Reached-forwards r

pub Refused-forwards :
    {Json : Type 0} {rules : Rules Json} {status : ℕ} {t : List Call}
    → Refused rules status t
    → forwards t ≡ 0
unfolding forwards
Refused-forwards (recorded_refusal other is says turned) = Turned-forwards turned
Refused-forwards (promotion_demanded is says turned) = Turned-forwards turned
Refused-forwards (work_demanded is above r) = Reached-forwards r
Refused-forwards (work_refused is above r) = Reached-forwards r
