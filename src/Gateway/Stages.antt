-- ===== src/Gateway/Stages.antt =====
-- src/gateway/pipeline/stages: the thirteen stages, one function each; what a stage does with a
-- service's answer is a function of that answer. A test that the language's types make of an
-- absent or empty text is written with `or_else`.
pub mod Pow
pub mod Mfa
use zt_access_gateway.Common.{
  ℕ, String, Bool, true, false, not, Option, none, some, List, [], ◌∷◌, ◌==◌, ltb, if◌then◌else◌,
}
use zt_access_gateway.Request.{
  UserClaims, lookup, header, trim, extract_ip, public_paths, honeypot_paths, contains,
  is_auth_only_path,
}
use zt_access_gateway.Audit.{AuditEntry, race, allow, deny, recorded, timed_out, threw}
use zt_access_gateway.Policy.Evaluator.{PolicyDecision, TrustContext}
use zt_access_gateway.Gateway.{
  Answer, AuthInvalidReason, AuthOutcome, Runtime, Upstream, Services, Ctx, World, called, noted,
  Body, Ran, Stage, returning, raising, entry_of, audit_exhausted, other_error, gave, failed,
  missing, scheme, token, ok, invalid, authenticated, revocation_checked, best_effort, audited,
  scored, overridden, decided, forwarded, trust_recorded, audit_failure, audit_wal_observed,
  auth_invalid_token, text, error_body, plain_body, continue_on, bypass, short_circuit, proxied,
}

module _ {Json St : Type 0} (sv : Services Json St) (rt : Runtime Json) where
  -- `recordWithTimeoutBestEffort`, and the stage that goes on where it has not thrown.
  unfoldable pub best_effort_then :
      AuditEntry → Ctx Json → World St → (World St → Ran Json St) → Ran Json St
  unfolding race
  best_effort_then entry c w next =
      let l = sv.audit_log entry w.services in
      let r = race 200 l in
      let w' = called (best_effort entry r) l.db w in
      elim r [
        | recorded ↦ next w'
        | timed_out ↦ next (noted audit_failure w')
        | threw ↦ raising audit_exhausted c w'
      ]

  unfoldable pub public_bypass : Stage Json St
  unfolding contains
  public_bypass c w =
      returning (if contains c.req_path public_paths then bypass else continue_on) c w

  unfoldable pub honeypot_bypass : Stage Json St
  unfolding contains
  honeypot_bypass c w =
      returning (if contains c.req_path honeypot_paths then bypass else continue_on) c w

  unfoldable pub auth_body : Ctx Json → AuthInvalidReason → Option String → Body Json
  auth_body c token message =
      error_body "auth_invalid" (elim message [ none ↦ [] | some m ↦ ("message", text m) ∷ [] ])
        c.request_id
  auth_body c missing message = error_body "auth_required" [] c.request_id
  auth_body c scheme message = error_body "auth_required" [] c.request_id

  unfoldable pub auth_answer : Ctx Json → World St → Answer AuthOutcome × St → Ran Json St
  unfolding best_effort_then entry_of auth_body
  auth_answer c w (failed e, st) = raising e c (record w { services = st })
  auth_answer c w (gave (ok user), st) =
      returning continue_on
        (record c {
          claims = some user;
          request = record c.request { user = some user; gateway_validated = true };
        })
        (called (authenticated (ok user)) st w)
  auth_answer c w (gave (invalid reason message), st) =
      best_effort_then (entry_of c "anonymous" deny none none) c
        (called (authenticated (invalid reason message)) st w)
        (λ w'.
          returning (short_circuit 401 (auth_body c reason message) []) c
            (noted auth_invalid_token w'))

  unfoldable pub auth : Stage Json St
  unfolding auth_answer
  auth c w = auth_answer c w (sv.authenticate c.request w.services)

  unfoldable pub revocation_answer : UserClaims → Ctx Json → World St → Bool × St → Ran Json St
  unfolding best_effort_then entry_of
  revocation_answer user c w (false, st) =
      returning continue_on c (called (revocation_checked user.jti false) st w)
  revocation_answer user c w (true, st) =
      best_effort_then (entry_of c user.user_id deny none (some "REVOCATION_BLOCKED")) c
        (called (revocation_checked user.jti true) st w)
        (returning (short_circuit 401 (error_body "token_revoked" [] c.request_id) []) c)

  unfoldable pub revocation : Stage Json St
  unfolding revocation_answer
  revocation c w = elim c.claims [
    | none ↦ returning continue_on c w
    | some user ↦ revocation_answer user c w (sv.is_revoked user.jti w.services)
  ]

  unfoldable pub auth_only : Stage Json St
  unfolding best_effort_then entry_of is_auth_only_path
  auth_only c w =
      if is_auth_only_path c.req_path
      then elim c.claims [
        | none ↦ raising (other_error "AuthOnlyShortCircuitStage: ctx.claims missing") c w
        | some user ↦
            best_effort_then (entry_of c user.user_id allow none none) c w (returning bypass c)
      ]
      else returning continue_on c w

  -- `parseDemoOverride`.
  unfoldable pub parse_demo_override : Option String → Option ℕ
  unfolding trim
  parse_demo_override none = none
  parse_demo_override (some raw) =
      let trimmed = trim raw in
      if trimmed == "" then none else elim (rt.to_number trimmed) [
        | none ↦ none
        | some n ↦ if ltb 1000000 n then none else some n
      ]

  unfoldable pub trust_context_of : UserClaims → Ctx Json → TrustContext
  unfolding extract_ip
  trust_context_of user c = record {
    user_id = user.user_id;
    device_id = user.device_id;
    ip = extract_ip c.request;
    ja4h = elim c.ja4h [ none ↦ "" | some v ↦ v ];
  }

  unfoldable pub set_score : TrustContext → ℕ → Bool → Ctx Json → Ctx Json
  set_score tctx value override c = record c {
    trust_score = some value;
    trust_ctx = some tctx;
    trust_override = override;
    request = record c.request { trust_score = some value };
  }

  unfoldable pub score_answer : TrustContext → Ctx Json → World St → Answer ℕ × St → Ran Json St
  unfolding set_score
  score_answer tctx c w (failed e, st) = raising e c (record w { services = st })
  score_answer tctx c w (gave n, st) =
      returning continue_on (set_score tctx n false c) (called (scored n) st w)

  unfoldable pub trust_score_for : TrustContext → Option ℕ → Stage Json St
  unfolding set_score score_answer
  trust_score_for tctx none c w = score_answer tctx c w (sv.evaluate_score tctx w.services)
  trust_score_for tctx (some n) c w =
      returning continue_on (set_score tctx n true c) (called (overridden n) w.services w)

  unfoldable pub trust_score : Stage Json St
  unfolding parse_demo_override trust_context_of trust_score_for lookup
  trust_score c w = elim c.claims [
    | none ↦ raising (other_error "TrustScoreStage: ctx.claims missing") c w
    | some user ↦
        trust_score_for (trust_context_of user c)
          (if sv.demo_is_active
            then parse_demo_override (header "x-demo-trust-score" c.request)
            else none)
          c w
  ]

  unfoldable pub policy_answer : Ctx Json → World St → Answer PolicyDecision × St → Ran Json St
  policy_answer c w (failed e, st) = raising e c (record w { services = st })
  policy_answer c w (gave d, st) =
      returning continue_on (record c { policy_decision = some d }) (called (decided d) st w)

  unfoldable pub policy : Stage Json St
  unfolding policy_answer
  policy c w = policy_answer c w (sv.policy_evaluate c.request w.services)

  unfoldable pub audit_allow : Stage Json St
  unfolding entry_of
  audit_allow c w = elim c.claims [
    | none ↦ raising (other_error "AuditAllowStage: ctx.claims missing") c w
    | some user ↦
        let entry = entry_of c user.user_id allow c.trust_score none in
        let l = sv.audit_log entry w.services in
        let w' = called (audited entry (not l.exhausted)) l.db w in
        if l.exhausted
        then raising audit_exhausted c w'
        else returning continue_on c (noted audit_wal_observed w')
  ]

  unfoldable pub forward_answer :
      UserClaims → ℕ → Ctx Json → World St → Answer (Upstream Json) × St → Ran Json St
  forward_answer user n c w (failed e, st) = raising e c (called (forwarded user n none) st w)
  forward_answer user n c w (gave up, st) =
      returning continue_on
        (record c { upstream_status = some up.status; upstream_body = up.data_of })
        (called (forwarded user n (some up.status)) st w)

  unfoldable pub proxy : Stage Json St
  unfolding forward_answer
  proxy c w = elim c.claims [
    | none ↦ raising (other_error "ProxyStage: ctx.claims missing") c w
    | some user ↦ elim c.trust_score [
      | none ↦ raising (other_error "ProxyStage: ctx.trustScore missing") c w
      | some n ↦ forward_answer user n c w (sv.forward c.request user n w.services)
    ]
  ]

  unfoldable pub keys_of : Option Json → Option (List String)
  keys_of none = none
  keys_of (some body) = rt.top_keys body

  unfoldable pub not_in : List String → List String → List String
  unfolding contains
  not_in kept [] = []
  not_in kept (k ∷ ks) = let rest = not_in kept ks in if contains k kept then rest else k ∷ rest

  unfoldable pub diff_top_level_keys : Option Json → Option Json → List String
  unfolding keys_of not_in
  diff_top_level_keys before after = elim (keys_of before) [
    | none ↦ []
    | some ks ↦ elim (keys_of after) [ none ↦ [] | some kept ↦ not_in kept ks ]
  ]

  unfoldable pub bopla_strip : Stage Json St
  unfolding diff_top_level_keys
  bopla_strip c w = elim c.claims [
    | none ↦ raising (other_error "BoplaStripStage: ctx.claims missing") c w
    | some user ↦
        let stripped = sv.strip c.upstream_body c.req_path user.roles in
        returning continue_on
          (record c {
            stripped_body = stripped;
            bopla_removed = diff_top_level_keys c.upstream_body stripped;
          })
          w
  ]

  unfoldable pub record_answer :
      TrustContext → ℕ → ℕ → Ctx Json → World St → Answer {0} Unit × St → Ran Json St
  record_answer tctx n status c w (failed e, st) = raising e c (record w { services = st })
  record_answer tctx n status c w (gave done, st) =
      returning (proxied status (plain_body c.stripped_body)) c
        (called (trust_recorded tctx n) st w)

  unfoldable pub record_for : Option TrustContext → Option ℕ → ℕ → Stage Json St
  unfolding record_answer
  record_for (some tctx) (some n) status c w =
      record_answer tctx n status c w (sv.record_trust_context tctx n w.services)
  record_for (some tctx) none status c w =
      raising (other_error "RecordTrustContextStage: trust ctx/score missing") c w
  record_for none score status c w =
      raising (other_error "RecordTrustContextStage: trust ctx/score missing") c w

  unfoldable pub record_trust_context : Stage Json St
  unfolding record_for
  record_trust_context c w = elim c.upstream_status [
    | none ↦ raising (other_error "RecordTrustContextStage: ctx.upstreamStatus missing") c w
    | some status ↦
        if ltb status 400
        then record_for c.trust_ctx c.trust_score status c w
        else returning (proxied status (plain_body c.stripped_body)) c w
  ]
