-- ===== src/Gateway/Protocol/Stages.antt =====
-- src/gateway/pipeline/stages: each stage takes a request from one phase of the protocol to the
-- next, or ends it as the protocol allows.
pub mod Gates
pub mod Promotion
pub mod Forwarding
use zt_access_gateway.Common.{
  ℕ, String, ◌≡◌, refl, sym, subst, inl, inr, Bool, true, false, Option, none, some, List, [], ◌∷◌,
  Bool-cases,
}
use zt_access_gateway.Request.{
  UserClaims, public_paths, honeypot_paths, contains, is_auth_only_path,
}
use zt_access_gateway.Audit.{
  AuditEntry, Logged, Raced, race, allow, deny, recorded, timed_out, threw,
}
use zt_access_gateway.Policy.Evaluator.{PolicyDecision, TrustContext}
use zt_access_gateway.Gateway.{
  Answer, AuthInvalidReason, AuthOutcome, Runtime, Services, Ctx, Call, World, called, noted, Body,
  Outcome, Ran, Stage, returning, entry_of, audit_exhausted, gave, failed, missing, scheme, token,
  ok, invalid, authenticated, revocation_checked, best_effort, auth_invalid_token, error_body,
  continue_on, bypass, short_circuit, returned, raised,
}
use zt_access_gateway.Gateway.Stages.{
  best_effort_then, public_bypass, honeypot_bypass, auth_body, auth_answer, auth, revocation_answer,
  revocation, auth_only,
}
use zt_access_gateway.Gateway.Protocol.Endings.{
  IsErrorBody, Turned, Refused, Ended, no_identity, unidentified, withdrawn, recorded_refusal,
  passed_by, let_in, turned_away, not_authenticated, refusal_lost, entrance_lost,
}
use zt_access_gateway.Gateway.Protocol.{
  Phase, Rules, IsGated, Reached, identified, cleared, ruled, start, identify, clear,
}

-- A stage went on with `Q`, or ended the request.
pub data After {Json : Type 0} (rules : Rules Json) (Q : Ctx Json → List Call → Type 0)
    : Outcome Json → Ctx Json → List Call → Type 0 where
  went : {c : Ctx Json} {t : List Call} → Q c t → After rules Q (returned continue_on) c t
  ended : {o : Outcome Json} {c : Ctx Json} {t : List Call} → Ended rules o t → After rules Q o c t

-- What the context holds from the trust score on, in a phase of the request's user and score.
pub record Standing {Json : Type 0} (rules : Rules Json) (phase : UserClaims → ℕ → Phase)
    (c : Ctx Json) (t : List Call) : Type 0 where
  pub user : UserClaims
  pub score : ℕ
  pub tctx : TrustContext
  pub path_is : c.req_path ≡ rules.path
  pub claims_are : c.claims ≡ some user
  pub score_is : c.trust_score ≡ some score
  pub ctx_is : c.trust_ctx ≡ some tctx
  pub reached : Reached rules (phase user score) t

module _ {Json : Type 0} (rules : Rules Json) where
  abbrev pub Outset : Ctx Json → List Call → Type 0
  Outset c t = (c.req_path ≡ rules.path) × (t ≡ [])

  -- No pass-through path, and no service called yet.
  abbrev pub Open : Ctx Json → List Call → Type 0
  Open c t = (contains rules.path public_paths ≡ false) × Outset c t

  abbrev pub Gated : Ctx Json → List Call → Type 0
  Gated c t = IsGated rules.path × Outset c t

  abbrev pub Known : (UserClaims → Phase) → Ctx Json → List Call → Type 0
  Known phase c t =
      (u : UserClaims) × (c.req_path ≡ rules.path) × (c.claims ≡ some u) × Reached rules (phase u) t

  -- The path is not one that only needs authentication.
  abbrev pub Full : Ctx Json → List Call → Type 0
  Full c t = (is_auth_only_path rules.path ≡ false) × Known cleared c t

  abbrev pub Ruled : Ctx Json → List Call → Type 0
  Ruled c t =
      (d : PolicyDecision) × (c.policy_decision ≡ some d) × Standing rules (λ u n. ruled u n d) c t

  abbrev pub Settles : {St : Type 0} → (Ctx Json → List Call → Type 0) → Ran Json St → Type 0
  Settles Q r = After rules Q r.outcome r.ctx r.world.calls

  abbrev pub Meets :
      {St : Type 0}
      → (Ctx Json → List Call → Type 0)
      → Stage Json St
      → (Ctx Json → List Call → Type 0)
      → Type 0
  Meets {St} P s Q = (c : Ctx Json) (w : World St) → P c w.calls → Settles Q (s c w)

-- The same context in a further phase of the same user and score.
pub advance :
    {Json : Type 0} {rules : Rules Json} {phase phase' : UserClaims → ℕ → Phase} {c : Ctx Json}
    {t t' : List Call}
    → (s : Standing rules phase c t) → Reached rules (phase' s.user s.score) t'
    → Standing rules phase' c t'
advance s r = record {
  user = s.user;
  score = s.score;
  tctx = s.tctx;
  path_is = s.path_is;
  claims_are = s.claims_are;
  score_is = s.score_is;
  ctx_is = s.ctx_is;
  reached = r;
}

module _ {Json St : Type 0} (sv : Services Json St) (rt : Runtime Json) (rules : Rules Json) where
  -- A refusal ends the request.
  pub refusal-Settles :
      {Q : Ctx Json → List Call → Type 0} {c : Ctx Json} {status : ℕ} {body : Body Json}
      {headers : List (String × String)} {t : List Call} (w : World St)
      → IsErrorBody body
      → w.calls ≡ t
      → Refused rules status t
      → Settles rules Q (returning (short_circuit status body headers) c w)
  refusal-Settles {status} w err e why =
      ended (turned_away err (subst (Refused rules status) (sym e) why))

  -- A raced write ends the request only if it throws.
  pub best_effort_then-Settles :
      {Q : Ctx Json → List Call → Type 0} (entry : AuditEntry) (c : Ctx Json) (w : World St)
      (next : World St → Ran Json St)
      → Ended rules (raised audit_exhausted) (best_effort entry threw ∷ w.calls)
      → ((w' : World St) (r : Raced)
          → w'.calls ≡ best_effort entry r ∷ w.calls
          → Settles rules Q (next w'))
      → Settles rules Q (best_effort_then sv rt entry c w next)
  unfolding best_effort_then
  best_effort_then-Settles {Q} entry c w next lost goes = go (race 200 l) refl
    where
      l : Logged St
      l = sv.audit_log entry w.services

      go : (r : Raced) → race 200 l ≡ r → Settles rules Q (best_effort_then sv rt entry c w next)
      go recorded e = rw (e, best_effort_then) (goes _ (race 200 l) refl)
      go timed_out e = rw (e, best_effort_then) (goes _ (race 200 l) refl)
      go threw e =
          rw (e, best_effort_then)
            (ended (
              subst (λ x. Ended rules (raised audit_exhausted) (best_effort entry x ∷ w.calls))
                (sym e) lost))

  pub public_bypass-Meets : Meets rules (Outset rules) (public_bypass sv rt) (Open rules)
  unfolding public_bypass
  public_bypass-Meets c w (p, e) = elim (Bool-cases (contains c.req_path public_paths)) [
    | inl yes' ↦ rw (yes', public_bypass) (ended (passed_by (inl (rw p at yes')) e))
    | inr no' ↦ rw (no', public_bypass) (went (rw p at no', (p, e)))
  ]

  pub honeypot_bypass-Meets : Meets rules (Open rules) (honeypot_bypass sv rt) (Gated rules)
  unfolding honeypot_bypass
  honeypot_bypass-Meets c w (open', (p, e)) =
      elim (Bool-cases (contains c.req_path honeypot_paths)) [
        | inl yes' ↦ rw (yes', honeypot_bypass) (ended (passed_by (inr (rw p at yes')) e))
        | inr no' ↦ rw (no', honeypot_bypass) (went ((open', rw p at no'), (p, e)))
      ]

  auth_body-IsErrorBody :
      (c : Ctx Json) (reason : AuthInvalidReason) (message : Option String)
      → IsErrorBody (auth_body sv rt c reason message)
  unfolding auth_body
  auth_body-IsErrorBody c missing message = tt
  auth_body-IsErrorBody c scheme message = tt
  auth_body-IsErrorBody c token message = tt

  auth_answer-Settles :
      (c : Ctx Json) (w : World St) (a : Answer AuthOutcome × St)
      → Gated rules c w.calls
      → Settles rules (Known rules identified) (auth_answer sv rt c w a)
  unfolding auth_answer entry_of
  auth_answer-Settles c w (failed x, st) (gated, (p, e)) = ended (rw e (not_authenticated gated))
  auth_answer-Settles c w (gave (ok u), st) (gated, (p, e)) =
      went (u, p, refl, identify gated (rw e start))
  auth_answer-Settles c w (gave (invalid reason message), st) (gated, (p, e)) =
      let entry = entry_of c "anonymous" deny none none in
      let turned : Turned rules no_identity (authenticated (invalid reason message) ∷ w.calls) =
        rw e (unidentified gated) in
      best_effort_then-Settles entry c (called (authenticated (invalid reason message)) st w)
        (λ w'.
          returning (short_circuit 401 (auth_body sv rt c reason message) []) c
            (noted auth_invalid_token w'))
        (refusal_lost turned)
        (λ w' r e'.
          refusal-Settles (noted auth_invalid_token w') (auth_body-IsErrorBody c reason message) e'
            (recorded_refusal (λ x. cc) refl refl turned))

  pub auth-Meets : Meets rules (Gated rules) (auth sv rt) (Known rules identified)
  unfolding auth
  auth-Meets c w e = auth_answer-Settles c w (sv.authenticate c.request w.services) e

  revocation_answer-Settles :
      (u : UserClaims) (c : Ctx Json) (w : World St) (a : Bool × St)
      → c.req_path ≡ rules.path
      → c.claims ≡ some u
      → Reached rules (identified u) w.calls
      → Settles rules (Known rules cleared) (revocation_answer sv rt u c w a)
  unfolding revocation_answer entry_of
  revocation_answer-Settles u c w (false, st) p e r = went (u, p, e, clear r)
  revocation_answer-Settles u c w (true, st) p e r =
      best_effort_then-Settles (entry_of c u.user_id deny none (some "REVOCATION_BLOCKED")) c
        (called (revocation_checked u.jti true) st w)
        (returning (short_circuit 401 (error_body "token_revoked" [] c.request_id) []) c)
        (refusal_lost (withdrawn r))
        (λ w' raced e'.
          refusal-Settles w' tt e' (recorded_refusal (λ x. cc) refl refl (withdrawn r)))

  pub revocation-Meets :
      Meets rules (Known rules identified) (revocation sv rt) (Known rules cleared)
  unfolding revocation
  revocation-Meets c w (u, p, e, r) =
      rw (e, revocation) (revocation_answer-Settles u c w (sv.is_revoked u.jti w.services) p e r)

  pub auth_only-Meets : Meets rules (Known rules cleared) (auth_only sv rt) (Full rules)
  unfolding auth_only
  auth_only-Meets c w (u, p, e, r) = elim (Bool-cases (is_auth_only_path c.req_path)) [
    | inl yes' ↦
        simp (yes', e)
          (best_effort_then-Settles (entry_of c u.user_id allow none none) c w (returning bypass c)
            (entrance_lost (rw p at yes') r)
            (λ w' raced e'.
              ended (subst (Ended rules (returned bypass)) (sym e') (let_in (rw p at yes') r))))
    | inr no' ↦ rw (no', auth_only) (went (rw p at no', (u, p, e, r)))
  ]
