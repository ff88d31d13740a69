-- ===== src/Gateway/Stages/Mfa.antt =====
-- src/gateway/pipeline/stages/mfa-promotion.stage.ts: what follows a policy decision.
use zt_access_gateway.Common.{
  String, Bool, true, false, none, some, [], ◌∷◌, ◌==◌, concat, if◌then◌else◌,
}
use zt_access_gateway.Request.{UserClaims, lookup, header, or_else, extract_ip}
use zt_access_gateway.Audit.{challenge, deny}
use zt_access_gateway.Policy.Evaluator.{PolicyDecision, allowed, challenged, denied}
use zt_access_gateway.Gateway.{
  MfaCreateResult, Runtime, Services, Ctx, World, called, noted, StageOutcome, Ran, Stage,
  returning, raising, entry_of, other_error, rate_limited, internal, created, refused,
  mfa_token_validated, mfa_challenge_created, request_counted, mfa_promotion, text, error_body,
  continue_on, short_circuit,
}
use zt_access_gateway.Gateway.Stages.{best_effort_then}

module _ {Json St : Type 0} (sv : Services Json St) (rt : Runtime Json) where
  unfoldable pub build_mfa_challenge_outcome : MfaCreateResult → String → StageOutcome Json
  build_mfa_challenge_outcome (refused rate_limited) request_id =
      short_circuit 429 (error_body "mfa_rate_limited" [] request_id) []
  build_mfa_challenge_outcome (refused internal) request_id =
      short_circuit 503 (error_body "mfa_internal" [] request_id) []
  build_mfa_challenge_outcome (created id expires_at) request_id =
      short_circuit 401
        (error_body "mfa_required"
          (("challengeId", text id)
            ∷ ("verifyEndpoint", text "/mfa/verify")
            ∷ ("expiresAt", text (rt.to_iso expires_at))
            ∷ [])
          request_id)
        (("WWW-Authenticate", concat "MFA realm=\"gateway\", challengeId=\"" (concat id "\""))
          ∷ ("X-MFA-Challenge", id)
          ∷ [])

  unfoldable pub challenge_answer : Ctx Json → World St → MfaCreateResult × St → Ran Json St
  unfolding build_mfa_challenge_outcome
  challenge_answer c w (ch, st) =
      returning (build_mfa_challenge_outcome ch c.request_id) c
        (called (mfa_challenge_created ch) st w)

  -- No valid token came with the request.
  unfoldable pub demand_mfa : UserClaims → Stage Json St
  unfolding best_effort_then entry_of extract_ip challenge_answer
  demand_mfa user c w =
      best_effort_then sv rt (entry_of c user.user_id challenge c.trust_score none) c
        (noted (mfa_promotion "reject") w)
        (λ w'.
          challenge_answer c (noted (request_counted "challenge") w')
            (sv.create_challenge user.user_id (extract_ip c.request) c.ja4h w'.services))

  unfoldable pub token_answer : String → UserClaims → Ctx Json → World St → Bool × St → Ran Json St
  unfolding demand_mfa
  token_answer mfa_token user c w (true, st) =
      returning continue_on c
        (noted (mfa_promotion "allow") (called (mfa_token_validated mfa_token user true) st w))
  token_answer mfa_token user c w (false, st) =
      demand_mfa user c (called (mfa_token_validated mfa_token user false) st w)

  unfoldable pub promote : UserClaims → Stage Json St
  unfolding demand_mfa token_answer extract_ip lookup
  promote user c w =
      let mfa_token = or_else (header "x-mfa-token" c.request) "" in
      if mfa_token == ""
      then demand_mfa user c w
      else token_answer mfa_token user c w (
          sv.validate_mfa_token mfa_token user.user_id user.device_id (extract_ip c.request) c.ja4h
            w.services)

  unfoldable pub act_on : PolicyDecision → UserClaims → Stage Json St
  unfolding promote best_effort_then entry_of
  act_on (allowed reason score sub) user c w = returning continue_on c w
  act_on (denied reason score sub) user c w =
      best_effort_then sv rt (entry_of c user.user_id deny c.trust_score none) c w (λ w'.
        returning
          (short_circuit 403
            (error_body "policy_denied" (("reason", text reason) ∷ []) c.request_id) [])
          c (noted (request_counted "deny") w'))
  act_on (challenged reason score sub) user c w = promote user c w

  unfoldable pub mfa_stage : Stage Json St
  unfolding act_on
  mfa_stage c w = elim c.claims [
    | none ↦ raising (other_error "MfaPromotionStage: ctx.claims missing") c w
    | some user ↦ elim c.policy_decision [
      | none ↦ raising (other_error "MfaPromotionStage: ctx.policyDecision missing") c w
      | some d ↦ act_on d user c w
    ]
  ]
