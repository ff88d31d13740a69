-- ===== src/Gateway/Protocol/Stages/Promotion.antt =====
-- src/gateway/pipeline/stages/mfa-promotion.stage.ts against the protocol.
use zt_access_gateway.Common.{
  ℕ, String, ◌≡◌, refl, inl, inr, Bool, true, false, Option, none, List, [], ◌∷◌, ◌==◌, Bool-cases,
}
use zt_access_gateway.Request.{UserClaims, header, or_else, extract_ip}
use zt_access_gateway.Audit.{AuditEntry, Raced, challenge, deny}
use zt_access_gateway.Policy.Evaluator.{PolicyDecision, allowed, challenged, denied}
use zt_access_gateway.Gateway.{
  MfaCreateResult, Runtime, Services, Ctx, Call, World, called, noted, returning, entry_of,
  rate_limited, internal, created, refused, best_effort, mfa_token_validated, request_counted,
  mfa_promotion, text, error_body, short_circuit,
}
use zt_access_gateway.Gateway.Stages.Mfa.{
  build_mfa_challenge_outcome, challenge_answer, demand_mfa, token_answer, promote, act_on,
  mfa_stage,
}
use zt_access_gateway.Gateway.Protocol.Endings.{
  Turned, no_promotion, forbidden, unpromoted, mispromoted, recorded_refusal, promotion_demanded,
  turned_away, refusal_lost,
}
use zt_access_gateway.Gateway.Protocol.{Rules, permitted, ruled, permit, promoted}
use zt_access_gateway.Gateway.Protocol.Stages.{
  Standing, Ruled, Settles, Meets, advance, refusal-Settles, best_effort_then-Settles, went, ended,
}

module _ {Json St : Type 0} (sv : Services Json St) (rt : Runtime Json) (rules : Rules Json) where
  challenge_answer-Settles :
      {Q : Ctx Json → List Call → Type 0} (c : Ctx Json) (w : World St) (a : MfaCreateResult × St)
      {entry : AuditEntry} {r : Raced} {t : List Call}
      → w.calls ≡ best_effort entry r ∷ t
      → entry.decision ≡ challenge
      → Turned rules no_promotion t
      → Settles rules Q (challenge_answer sv rt c w a)
  unfolding challenge_answer build_mfa_challenge_outcome
  challenge_answer-Settles c w (created id expires_at, st) e says turned =
      ended (turned_away tt (rw e (promotion_demanded refl says turned)))
  challenge_answer-Settles c w (refused rate_limited, st) e says turned =
      ended (turned_away tt (rw e (promotion_demanded refl says turned)))
  challenge_answer-Settles c w (refused internal, st) e says turned =
      ended (turned_away tt (rw e (promotion_demanded refl says turned)))

  demand_mfa-Settles :
      {Q : Ctx Json → List Call → Type 0} (u : UserClaims) (c : Ctx Json) (w : World St)
      → Turned rules no_promotion w.calls
      → Settles rules Q (demand_mfa sv rt u c w)
  unfolding demand_mfa entry_of
  demand_mfa-Settles u c w turned =
      best_effort_then-Settles sv rt rules (entry_of c u.user_id challenge c.trust_score none) c
        (noted (mfa_promotion "reject") w)
        (λ w'.
          challenge_answer sv rt c (noted (request_counted "challenge") w')
            (sv.create_challenge u.user_id (extract_ip c.request) c.ja4h w'.services))
        (refusal_lost turned)
        (λ w' r e.
          challenge_answer-Settles c (noted (request_counted "challenge") w')
            (sv.create_challenge u.user_id (extract_ip c.request) c.ja4h w'.services) e refl turned)

  token_answer-Settles :
      (mfa_token : String) (c : Ctx Json) (w : World St) (a : Bool × St) {n : ℕ} {reason : String}
      {sub : Option String}
      → (s : Standing rules (λ u k. ruled u k (challenged reason n sub)) c w.calls)
      → Settles rules (Standing rules permitted) (token_answer sv rt mfa_token s.user c w a)
  unfolding token_answer
  token_answer-Settles mfa_token c w (true, st) s = went (advance s (promoted s.reached))
  token_answer-Settles mfa_token c w (false, st) s =
      demand_mfa-Settles s.user c (called (mfa_token_validated mfa_token s.user false) st w)
        (mispromoted s.reached)

  promote-Settles :
      (c : Ctx Json) (w : World St) {n : ℕ} {reason : String} {sub : Option String}
      → (s : Standing rules (λ u k. ruled u k (challenged reason n sub)) c w.calls)
      → Settles rules (Standing rules permitted) (promote sv rt s.user c w)
  unfolding promote
  promote-Settles c w s =
      let mfa_token = or_else (header "x-mfa-token" c.request) "" in
      elim (Bool-cases (mfa_token == "")) [
        | inl bare ↦ simp (promote, bare) (demand_mfa-Settles s.user c w (unpromoted s.reached))
        | inr given ↦
            simp (promote, given)
              (token_answer-Settles mfa_token c w
                (sv.validate_mfa_token mfa_token s.user.user_id s.user.device_id
                  (extract_ip c.request) c.ja4h w.services)
                s)
      ]

  act_on-Settles :
      (d : PolicyDecision) (c : Ctx Json) (w : World St)
      → (s : Standing rules (λ u n. ruled u n d) c w.calls)
      → Settles rules (Standing rules permitted) (act_on sv rt d s.user c w)
  unfolding act_on entry_of
  act_on-Settles (allowed reason n sub) c w s = went (advance s (permit s.reached))
  act_on-Settles (challenged reason n sub) c w s = promote-Settles c w s
  act_on-Settles (denied reason n sub) c w s =
      best_effort_then-Settles sv rt rules (entry_of c s.user.user_id deny c.trust_score none) c w
        (λ w'.
          returning
            (short_circuit 403
              (error_body "policy_denied" (("reason", text reason) ∷ []) c.request_id) [])
            c (noted (request_counted "deny") w'))
        (refusal_lost (forbidden s.reached))
        (λ w' r e.
          refusal-Settles sv rt rules (noted (request_counted "deny") w') tt e
            (recorded_refusal (λ x. cc) refl refl (forbidden s.reached)))

  pub mfa_stage-Meets : Meets rules (Ruled rules) (mfa_stage sv rt) (Standing rules permitted)
  unfolding mfa_stage
  mfa_stage-Meets c w (d, e, s) = simp (mfa_stage, s.claims_are, e) (act_on-Settles d c w s)
