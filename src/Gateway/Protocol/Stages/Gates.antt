-- ===== src/Gateway/Protocol/Stages/Gates.antt =====
-- src/gateway/pipeline/stages: trust score, proof of work, policy and MFA against the protocol.
use zt_access_gateway.Common.{
  ℕ, ◌≤◌, ◌<◌, String, ◌≡◌, refl, subst, inl, inr, true, false, ◌||◌, Option, none, some, List, ◌∷◌,
  arith, ◌==◌, ltb, leb, if◌then◌else◌, Bool-cases,
}
use zt_access_gateway.Request.{UserClaims, header, or_else, is_auth_only_path}
use zt_access_gateway.Hashcash.Service.{
  IssuedChallenge, VerifyResult, text_length, verified, rejected, failed,
}
use zt_access_gateway.Policy.Evaluator.{PolicyDecision, TrustContext}
use zt_access_gateway.Gateway.{
  Answer, Runtime, Services, Ctx, Call, World, called, gave, failed, challenge_issued,
  solution_verified,
}
use zt_access_gateway.Gateway.Stages.{
  parse_demo_override, trust_context_of, set_score, score_answer, trust_score_for, trust_score,
  policy_answer, policy,
}
use zt_access_gateway.Gateway.Stages.Pow.{issue, pow_answer, pow_required, trigger_of, hashcash}
use zt_access_gateway.Gateway.Protocol.Endings.{
  Refused, work_demanded, work_refused, turned_away, not_scored, not_decided,
}
use zt_access_gateway.Gateway.Protocol.{
  Rules, Reached, cleared, rated, worked, rate, override, spare, work, rule,
}
use zt_access_gateway.Gateway.Protocol.Stages.{
  Standing, Full, Ruled, Settles, Meets, advance, went, ended,
}

module _ {Json St : Type 0} (sv : Services Json St) (rt : Runtime Json) (rules : Rules Json) where
  score_answer-Settles :
      (tctx : TrustContext) (u : UserClaims) (c : Ctx Json) (w : World St) (a : Answer ℕ × St)
      → is_auth_only_path rules.path ≡ false
      → c.req_path ≡ rules.path
      → c.claims ≡ some u
      → Reached rules (cleared u) w.calls
      → Settles rules (Standing rules rated) (score_answer sv rt tctx c w a)
  unfolding score_answer set_score
  score_answer-Settles tctx u c w (failed x, st) full p e r = ended (not_scored full r)
  score_answer-Settles tctx u c w (gave n, st) full p e r = went (record {
    user = u;
    score = n;
    tctx = tctx;
    path_is = p;
    claims_are = e;
    score_is = refl;
    ctx_is = refl;
    reached = rate full r;
  })

  trust_score_for-Settles :
      (tctx : TrustContext) (o : Option ℕ) (u : UserClaims) (c : Ctx Json) (w : World St)
      → is_auth_only_path rules.path ≡ false
      → c.req_path ≡ rules.path
      → c.claims ≡ some u
      → Reached rules (cleared u) w.calls
      → Settles rules (Standing rules rated) (trust_score_for sv rt tctx o c w)
  unfolding trust_score_for set_score
  trust_score_for-Settles tctx none u c w full p e r =
      score_answer-Settles tctx u c w (sv.evaluate_score tctx w.services) full p e r
  trust_score_for-Settles tctx (some n) u c w full p e r = went (record {
    user = u;
    score = n;
    tctx = tctx;
    path_is = p;
    claims_are = e;
    score_is = refl;
    ctx_is = refl;
    reached = override full r;
  })

  pub trust_score-Meets : Meets rules (Full rules) (trust_score sv rt) (Standing rules rated)
  unfolding trust_score
  trust_score-Meets c w (full, (u, p, e, r)) =
      simp (trust_score, e)
        (trust_score_for-Settles (trust_context_of sv rt u c)
          (if sv.demo_is_active
            then parse_demo_override sv rt (header "x-demo-trust-score" c.request)
            else none)
          u c w full p e r)

  policy_answer-Settles :
      (c : Ctx Json) (w : World St) (a : Answer PolicyDecision × St)
      → Standing rules worked c w.calls
      → Settles rules (Ruled rules) (policy_answer sv rt c w a)
  unfolding policy_answer
  policy_answer-Settles c w (failed x, st) s = ended (not_decided s.reached)
  policy_answer-Settles c w (gave d, st) s = went (
    d,
    refl,
    record {
      user = s.user;
      score = s.score;
      tctx = s.tctx;
      path_is = s.path_is;
      claims_are = s.claims_are;
      score_is = s.score_is;
      ctx_is = s.ctx_is;
      reached = rule s.reached;
    },
  )

  pub policy-Meets : Meets rules (Standing rules worked) (policy sv rt) (Ruled rules)
  unfolding policy
  policy-Meets c w s = policy_answer-Settles c w (sv.policy_evaluate c.request w.services) s

  -- A fresh challenge ends the request, if the protocol asks for one here.
  issue-Settles :
      {Q : Ctx Json → List Call → Type 0} (u : UserClaims) (n : ℕ) (err : String) (c : Ctx Json)
      (w : World St)
      → ((ch : IssuedChallenge) → Refused rules 429 (challenge_issued ch ∷ w.calls))
      → Settles rules Q (issue sv rt u n err c w)
  unfolding issue
  issue-Settles u n err c w why = ended (turned_away tt (why _))

  pow_answer-Settles :
      (nonce solution : String) (c : Ctx Json) (w : World St) (a : VerifyResult × St)
      → (s : Standing rules rated c w.calls) → rules.trigger < s.score
      → Settles rules (Standing rules worked) (pow_answer sv rt s.user s.score nonce solution c w a)
  unfolding pow_answer
  pow_answer-Settles nonce solution c w (verified d, st) s above =
      went (advance s (work above s.reached))
  pow_answer-Settles nonce solution c w (rejected reason, st) s above =
      issue-Settles s.user s.score "proof_of_work_invalid" c
        (called (solution_verified nonce solution s.score (rejected reason)) st w)
        (λ ch. work_refused refl above s.reached)

  pow_required-Settles :
      (c : Ctx Json) (w : World St) (s : Standing rules rated c w.calls)
      → rules.trigger < s.score
      → Settles rules (Standing rules worked) (pow_required sv rt s.user s.score c w)
  unfolding pow_required
  pow_required-Settles c w s above =
      let nonce = or_else (header "x-hashcash-nonce" c.request) "" in
      let solution = or_else (header "x-hashcash-solution" c.request) "" in
      elim (Bool-cases (nonce == "" || solution == "")) [
        | inl bare ↦ simp bare (
            issue-Settles s.user s.score "proof_of_work_required" c w
              (λ ch. work_demanded refl above s.reached))
        | inr given ↦
            elim (Bool-cases (ltb 256 (text_length solution) || ltb (text_length solution) 1)) [
              | inl long ↦
                  simp (given, long)
                    (issue-Settles s.user s.score "proof_of_work_invalid" c w
                      (λ ch. work_demanded refl above s.reached))
              | inr fits ↦
                  simp (given, fits)
                    (pow_answer-Settles nonce solution c w
                      (sv.verify_solution nonce solution s.score s.user.user_id s.user.device_id
                        w.services)
                      s above)
            ]
      ]

  pub hashcash-Meets :
      (o : Option ℕ)
      → trigger_of sv rt o ≡ rules.trigger
      → Meets rules (Standing rules rated) (hashcash sv rt o) (Standing rules worked)
  unfolding hashcash
  hashcash-Meets o same c w s = elim (Bool-cases (leb s.score (trigger_of sv rt o))) [
    | inl low ↦
        simp (hashcash, s.claims_are, s.score_is, low)
          (went (advance s (spare (subst (λ k. s.score ≤ k) same (le_of low)) s.reached)))
    | inr high ↦
        simp (hashcash, s.claims_are, s.score_is, high)
          (pow_required-Settles c w s (subst (λ k. k < s.score) same (lt_of high)))
  ]
    where
      le_of : {a b : ℕ} → leb a b ≡ true → a ≤ b
      le_of h = ground arith

      lt_of : {a b : ℕ} → leb a b ≡ false → b < a
      lt_of h = ground arith
