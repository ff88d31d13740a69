-- ===== src/Policy/Evaluator/Strictness.antt =====
-- src/policy/policy-evaluator.service.ts with src/config/config.module.ts: a higher threat level
-- is never more lenient.
use zt_access_gateway.Common.{ℕ, ◌≤◌, String, inl, inr, Option, none, some, arith, Option-cases}
use zt_access_gateway.Request.{UserClaims, Request}
use zt_access_gateway.Policy.Threat
use zt_access_gateway.Policy.Threat.{ThreatLevel, Threat, order, challenge_at, deny_at}
use zt_access_gateway.Policy.Evaluator.{
  PolicyDecision, Casbin, PolicyState, build_subjects, first_allowed, decide, score_of,
  evaluate_user, evaluate, IsTightened, allowed, challenged, denied,
}
use zt_access_gateway.Policy.Evaluator.Decisions.{
  live, decide_live_lem, enforced, evaluate_user_decided, evaluate_user_threw,
}

-- 0 for ALLOW, 1 for CHALLENGE, 2 for DENY.
abbrev pub strictness : PolicyDecision → ℕ
strictness (allowed reason score sub) = 0
strictness (challenged reason score sub) = 1
strictness (denied reason score sub) = 2

decide-strictness :
    (matched : Option String) (score c c' d d' : ℕ)
    → c' ≤ c
    → d' ≤ d
    → strictness (decide matched score c d) ≤ strictness (decide matched score c' d')
unfolding decide
decide-strictness none score c c' d d' hc hd = omega arith
decide-strictness (some sub) score c c' d d' hc hd = ground arith

thresholds_mono :
    (cfg : Threat.Config) (low high : ThreatLevel)
    → IsTightened cfg
    → order low ≤ order high
    → (challenge_at cfg high ≤ challenge_at cfg low) × (deny_at cfg high ≤ deny_at cfg low)
thresholds_mono cfg low high t h = ground (arith, t)

-- With a validated configuration, and two states of the gateway that differ in the threat level
-- in force only as far as the first is not above the second, the same request is never decided
-- more leniently (ALLOW, CHALLENGE, DENY) in the second state than in the first.
pub evaluate-strictness :
    (cfg : Threat.Config) (casbin : Casbin) (now : ℕ) (req : Request) (low high : PolicyState)
    → IsTightened cfg
    → order (live cfg now low) ≤ order (live cfg now high)
    → strictness (evaluate cfg casbin now req low).0
      ≤ strictness (evaluate cfg casbin now req high).0
unfolding evaluate
evaluate-strictness cfg casbin now req low high t le = elim (Option-cases req.user) [
  | inl nobody ↦ rw (nobody, evaluate) (omega arith)
  | inr (user, e) ↦ rw (e, evaluate) (go user)
]
  where
    go :
        (user : UserClaims)
        → strictness (evaluate_user cfg casbin now req user low).0
          ≤ strictness (evaluate_user cfg casbin now req user high).0
    go user =
        elim (Option-cases
          (first_allowed (enforced cfg casbin now req low) (build_subjects user))) [
            | inl threw ↦
                rw
                  (
                    evaluate_user_threw cfg casbin now req low user threw,
                    evaluate_user_threw cfg casbin now req high user threw,
                  )
                  (omega arith)
            | inr (matched, found) ↦
                let (c, d) = thresholds_mono cfg (live cfg now low) (live cfg now high) t le in
                rw
                  (
                    evaluate_user_decided cfg casbin now req low user found,
                    evaluate_user_decided cfg casbin now req high user found,
                    decide_live_lem cfg now (score_of casbin req user) matched low,
                    decide_live_lem cfg now (score_of casbin req user) matched high,
                  )
                  (decide-strictness matched (score_of casbin req user) _ _ _ _ c d)
          ]
