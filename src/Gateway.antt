-- ===== src/Gateway.antt =====
-- src/gateway: the context that the stages pass on (pipeline/stage-context.ts, pipeline-stage.ts,
-- pipeline/build-stage-context.ts) and the services that they call, as an interface on one state.
-- A world is the services' state with two logs, newest first: the calls, with their answers, and
-- the counters and events.
pub mod Stages
pub mod Middleware
pub mod Protocol
use zt_access_gateway.Common.{ℕ, String, Bool, Option, none, some, List, ◌∷◌}
use zt_access_gateway.Request.{UserClaims, Request, lookup, header, extract_ip, before_query}
use zt_access_gateway.Audit.{AuditDecision, AuditEntry, Logged, Raced}
use zt_access_gateway.Hashcash.Service.{IssuedChallenge, VerifyResult}
use zt_access_gateway.Policy.Evaluator.{PolicyDecision, TrustContext}

-- What the code tells apart in what is thrown.
pub data Err : Type 0 where
  audit_exhausted service_unavailable : Err
  unauthorized other_error : String → Err

-- What a call that may throw answers.
pub data Answer {ℓ} (A : Type ℓ) : Type ℓ where
  gave : A → Answer A
  failed : Err → Answer A

pub data AuthInvalidReason : Type 0 where
  missing scheme token : AuthInvalidReason

pub data AuthOutcome : Type 0 where
  ok : UserClaims → AuthOutcome
  invalid : AuthInvalidReason → Option String → AuthOutcome

pub data MfaCreateReason : Type 0 where
  rate_limited internal : MfaCreateReason

pub data MfaCreateResult : Type 0 where
  created : String → ℕ → MfaCreateResult
  refused : MfaCreateReason → MfaCreateResult

-- A JSON body, the names of a plain object's own keys, and the texts of numbers and times.
pub record Runtime (Json : Type 0) : Type 0 where
  pub top_keys : Json → Option (List String)
  -- `Number(text)` in millionths, where that is finite and not negative.
  pub to_number : String → Option ℕ
  pub show : ℕ → String
  pub to_iso : ℕ → String
  pub random_uuid : String

pub record Upstream (Json : Type 0) : Type 0 where
  pub status : ℕ
  pub data_of : Option Json

pub record Services (Json : Type 0) (St : Type 0) : Type 0 where
  pub authenticate : Request → St → Answer AuthOutcome × St
  pub is_revoked : String → St → Bool × St
  pub audit_log : AuditEntry → St → Logged St
  pub demo_is_active : Bool
  pub evaluate_score : TrustContext → St → Answer ℕ × St
  pub issue_challenge : String → String → ℕ → St → IssuedChallenge × St
  pub verify_solution : String → String → ℕ → String → String → St → VerifyResult × St
  pub policy_evaluate : Request → St → Answer PolicyDecision × St
  pub validate_mfa_token : String → String → String → String → Option String → St → Bool × St
  pub create_challenge : String → String → Option String → St → MfaCreateResult × St
  pub forward : Request → UserClaims → ℕ → St → Answer (Upstream Json) × St
  pub strip : Option Json → String → List String → Option Json
  pub record_trust_context : TrustContext → ℕ → St → Answer {0} Unit × St

pub record Ctx (Json : Type 0) : Type 0 where
  pub request : Request
  pub request_id : String
  pub req_path : String
  pub ja4h : Option String
  pub claims : Option UserClaims
  pub trust_score : Option ℕ
  pub trust_ctx : Option TrustContext
  pub trust_override : Bool
  pub policy_decision : Option PolicyDecision
  pub upstream_status : Option ℕ
  pub upstream_body : Option Json
  pub stripped_body : Option Json
  pub bopla_removed : List String

pub data Call : Type 0 where
  authenticated : AuthOutcome → Call
  revocation_checked : String → Bool → Call
  best_effort : AuditEntry → Raced → Call
  audited : AuditEntry → Bool → Call
  scored overridden : ℕ → Call
  challenge_issued : IssuedChallenge → Call
  solution_verified : String → String → ℕ → VerifyResult → Call
  decided : PolicyDecision → Call
  mfa_token_validated : String → UserClaims → Bool → Call
  mfa_challenge_created : MfaCreateResult → Call
  -- The status that the upstream answered, if it answered.
  forwarded : UserClaims → ℕ → Option ℕ → Call
  trust_recorded : TrustContext → ℕ → Call

pub data Note : Type 0 where
  audit_failure audit_wal_observed auth_invalid_token audit_signal : Note
  request_counted mfa_promotion : String → Note
  stage_observed : String → Note

pub record World (St : Type 0) : Type 0 where
  pub services : St
  pub calls : List Call
  pub notes : List Note

abbrev pub called : {St : Type 0} → Call → St → World St → World St
called call st w = record w { services = st; calls = call ∷ w.calls }

abbrev pub noted : {St : Type 0} → Note → World St → World St
noted n w = record w { notes = n ∷ w.notes }

pub data Field : Type 0 where
  text : String → Field
  number : ℕ → Field

-- A response body: an error with its fields and the request's id, or the upstream's.
pub data Body (Json : Type 0) : Type 0 where
  error_body : String → List (String × Field) → String → Body Json
  plain_body : Option Json → Body Json

pub data StageOutcome (Json : Type 0) : Type 0 where
  continue_on bypass : StageOutcome Json
  short_circuit : ℕ → Body Json → List (String × String) → StageOutcome Json
  proxied : ℕ → Body Json → StageOutcome Json

pub data Outcome (Json : Type 0) : Type 0 where
  returned : StageOutcome Json → Outcome Json
  raised : Err → Outcome Json

pub record Ran (Json : Type 0) (St : Type 0) : Type 0 where
  pub outcome : Outcome Json
  pub ctx : Ctx Json
  pub world : World St

abbrev pub Stage : Type 0 → Type 0 → Type 0
Stage Json St = Ctx Json → World St → Ran Json St

abbrev pub returning : {Json St : Type 0} → StageOutcome Json → Ctx Json → World St → Ran Json St
returning o c w = record { outcome = returned o; ctx = c; world = w }

abbrev pub raising : {Json St : Type 0} → Err → Ctx Json → World St → Ran Json St
raising e c w = record { outcome = raised e; ctx = c; world = w }

unfoldable pub build_stage_context : {Json : Type 0} → Runtime Json → Request → Ctx Json
unfolding lookup before_query
build_stage_context rt req = record {
  request = req;
  request_id = elim (header "x-request-id" req) [ none ↦ rt.random_uuid | some id ↦ id ];
  req_path = before_query req.original_url;
  ja4h = req.ja4h;
  claims = none;
  trust_score = none;
  trust_ctx = none;
  trust_override = Bool.false;
  policy_decision = none;
  upstream_status = none;
  upstream_body = none;
  stripped_body = none;
  bopla_removed = List.[];
}

-- The entries that the stages write differ in these four fields.
unfoldable pub entry_of :
    {Json : Type 0} → Ctx Json → String → AuditDecision → Option ℕ → Option String → AuditEntry
unfolding extract_ip
entry_of c user decision score event = record {
  user_id = user;
  resource = c.req_path;
  action = c.request.method;
  decision = decision;
  trust_score = score;
  ja4h_fingerprint = c.ja4h;
  ip_address = extract_ip c.request;
  user_agent = none;
  event_type = event;
  request_id = some c.request_id;
}
