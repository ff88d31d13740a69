-- ===== src/Policy/Evaluator.antt =====
-- src/policy/policy-evaluator.service.ts (`evaluate`), policy-subject.util.ts, policy-decision.ts,
-- and the threshold rules of src/config/config.module.ts. The Casbin enforcer, the upper-casing of
-- a method and the score of a request that carries none are parameters. An emitted POLICY_DENY
-- reaches the threat service at once, as EventEmitter2 calls its listeners.
pub mod Decisions
pub mod Strictness
use zt_access_gateway.Common.{
  ℕ, suc, ◌<◌, String, Bool, Option, none, some, List, [], ◌∷◌, map, ◌==◌, concat, ltb, leb,
  if◌then◌else◌,
}
use zt_access_gateway.Request.{UserClaims, Request, or_else, extract_ip, extract_ja4h, before_query}
use zt_access_gateway.Policy.Threat
use zt_access_gateway.Policy.Threat.{
  Threat, record_signal, current_challenge_threshold, current_deny_threshold, policy_deny,
}

pub data PolicyDecision : Type 0 where
  allowed : String → ℕ → String → PolicyDecision
  challenged : String → ℕ → Option String → PolicyDecision
  denied : String → ℕ → Option String → PolicyDecision

pub record TrustContext : Type 0 where
  pub user_id : String
  pub device_id : String
  pub ip : String
  pub ja4h : String

-- `enforce` answers `none` where the enforcer throws.
pub record Casbin : Type 0 where
  pub enforce : String → String → String → Option Bool
  pub to_upper_case : String → String
  pub evaluate_score : TrustContext → ℕ

-- The labels of `zt_gateway_policy_decisions_total`.
pub data DecisionLabel : Type 0 where
  label_allow label_challenge label_deny : DecisionLabel

pub record PolicyState : Type 0 where
  pub threat : Threat
  pub decisions : List DecisionLabel
  pub errors : ℕ

unfoldable pub build_subjects : UserClaims → List String
build_subjects claims = concat "user:" claims.user_id ∷ map (concat "role:") claims.roles

-- A slash at the end goes, unless it is the whole text.
unfoldable pub strip_slash : String → String
strip_slash String.[] = String.[]
strip_slash (String.◌∷◌ c s) =
    let rest = strip_slash s in String.◌∷◌ c (if s == "/" then "" else rest)

unfoldable pub normalize_resource : String → String
unfolding strip_slash
normalize_resource raw = strip_slash (before_query raw)

-- The loop over the subjects: the first one that is allowed; `none` where the enforcer throws.
unfoldable pub first_allowed : (String → Option Bool) → List String → Option (Option String)
first_allowed enforce [] = some none
first_allowed enforce (sub ∷ rest) =
    let later = first_allowed enforce rest in
    elim (enforce sub) [ none ↦ none | some ok ↦ if ok then some (some sub) else later ]

-- The mapping of step 5.
unfoldable pub decide : Option String → ℕ → ℕ → ℕ → PolicyDecision
decide none score challenge_t deny_t = denied "casbin_no_match" score none
decide (some sub) score challenge_t deny_t =
    if leb deny_t score
    then denied "score_above_deny_threshold" score (some sub)
    else if ltb score challenge_t
    then allowed "score_below_challenge_threshold" score sub
    else challenged "score_in_challenge_band" score (some sub)

abbrev pub label_of : PolicyDecision → DecisionLabel
label_of (allowed reason score sub) = label_allow
label_of (challenged reason score sub) = label_challenge
label_of (denied reason score sub) = label_deny

-- `emitDeny`, with the listener `onPolicyDeny`.
unfoldable pub emit_deny : Threat.Config → ℕ → PolicyState → PolicyState
emit_deny cfg now st = record st { threat = record_signal cfg now policy_deny st.threat }

unfoldable pub score_of : Casbin → Request → UserClaims → ℕ
unfolding extract_ip extract_ja4h
score_of casbin req user = elim req.trust_score [
  | some score ↦ score
  | none ↦ casbin.evaluate_score (record {
    user_id = user.user_id;
    device_id = user.device_id;
    ip = extract_ip req;
    ja4h = or_else (extract_ja4h req) "";
  })
]

-- Steps 4 to 6: the live thresholds, the decision, the counter and the event.
unfoldable pub decide_live :
    Threat.Config → ℕ → ℕ → Option String → PolicyState → PolicyDecision × PolicyState
unfolding emit_deny
decide_live cfg now score matched st =
    let (challenge_t, cooled) = current_challenge_threshold cfg now st.threat in
    let (deny_t, cooled') = current_deny_threshold cfg now cooled in
    let decision = decide matched score challenge_t deny_t in
    let st' = record st { threat = cooled'; decisions = label_of decision ∷ st.decisions } in
    (decision, elim (label_of decision) [ label_deny ↦ emit_deny cfg now st' | _ ↦ st' ])

unfoldable pub evaluate_user :
    Threat.Config → Casbin → ℕ → Request → UserClaims → PolicyState → PolicyDecision × PolicyState
unfolding score_of decide_live emit_deny
evaluate_user cfg casbin now req user st =
    let score = score_of casbin req user in
    let obj = normalize_resource req.original_url in
    let act = casbin.to_upper_case req.method in
    elim (first_allowed (λ sub. casbin.enforce sub obj act) (build_subjects user)) [
      | none ↦ (
        denied "policy_error" score none,
        emit_deny cfg now
            (record st { errors = suc st.errors; decisions = label_deny ∷ st.decisions }),
      )
      | some matched ↦ decide_live cfg now score matched st
    ]

unfoldable pub evaluate :
    Threat.Config → Casbin → ℕ → Request → PolicyState → PolicyDecision × PolicyState
unfolding evaluate_user
evaluate cfg casbin now req st = elim req.user [
  | none ↦ (denied "no_user" 1000000 none, st)
  | some user ↦ evaluate_user cfg casbin now req user st
]

-- The cross-field rules on the thresholds that the configuration is checked against at start.
pub record IsTightened (cfg : Threat.Config) : Type 0 where
  pub elevated_challenge : cfg.elevated_challenge_threshold < cfg.challenge_threshold
  pub critical_challenge : cfg.critical_challenge_threshold < cfg.elevated_challenge_threshold
  pub elevated_deny : cfg.elevated_deny_threshold < cfg.deny_threshold
  pub critical_deny : cfg.critical_deny_threshold < cfg.elevated_deny_threshold
  pub denies : cfg.threat_elevated_denies < cfg.threat_critical_denies
  pub invalid_tokens : cfg.threat_elevated_invalid_tokens < cfg.threat_critical_invalid_tokens
  pub honeypot : cfg.threat_elevated_honeypot < cfg.threat_critical_honeypot
  pub mfa_rate_limited : cfg.threat_elevated_mfa_rate_limited < cfg.threat_critical_mfa_rate_limited
