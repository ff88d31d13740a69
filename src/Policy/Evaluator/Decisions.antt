-- ===== src/Policy/Evaluator/Decisions.antt =====
-- src/policy/policy-evaluator.service.ts: what a decision says, and what it leaves behind.
use zt_access_gateway.Common.{
  ℕ, suc, ◌<◌, String, ◌≡◌, refl, sym, ap, subst, ◌∙◌, ◌≢◌, ◌⊎◌, inl, inr, Bool, true, false,
  Option, none, some, List, [], ◌∷◌, arith, Bool-cases, Option-cases,
}
use zt_access_gateway.Request.{UserClaims, Request}
use zt_access_gateway.Policy.Threat
use zt_access_gateway.Policy.Threat.{
  ThreatLevel, Threat, effective_level, record_signal, maybe_cooldown, challenge_at, deny_at,
  current_challenge_threshold, current_deny_threshold, policy_deny,
}
use zt_access_gateway.Policy.Threat.Cooldown.{maybe_cooldown_idem}
use zt_access_gateway.Policy.Evaluator.{
  PolicyDecision, Casbin, PolicyState, build_subjects, normalize_resource, first_allowed, decide,
  label_of, emit_deny, score_of, decide_live, evaluate_user, evaluate, allowed, challenged, denied,
  label_deny,
}

-- The enforcer allows the subject, and has refused every subject before it.
pub data FirstAllowed (enforce : String → Option Bool) (sub : String) : List String → Type 0 where
  here : {rest : List String} → enforce sub ≡ some true → FirstAllowed enforce sub (sub ∷ rest)
  there :
      {s : String} {rest : List String}
      → enforce s ≡ some false
      → FirstAllowed enforce sub rest
      → FirstAllowed enforce sub (s ∷ rest)

first_allowed-FirstAllowed :
    (enforce : String → Option Bool) (subs : List String) {sub : String}
    → first_allowed enforce subs ≡ some (some sub)
    → FirstAllowed enforce sub subs
unfolding first_allowed
first_allowed-FirstAllowed enforce [] h = cc
first_allowed-FirstAllowed enforce (s ∷ rest) {sub} h = elim (Option-cases (enforce s)) [
  | inl threw ↦ absurd (ground arith)
  | inr (ok, e) ↦ elim (Bool-cases ok) [
    | inl t ↦
        let same : s ≡ sub = ground arith in
        subst (λ x. FirstAllowed enforce x (s ∷ rest)) same (here (rw t at e))
    | inr f ↦ there (rw f at e) (first_allowed-FirstAllowed enforce rest (ground arith))
  ]
]

-- The thresholds in force: those of the level after the cooldown of this read.
abbrev pub live : Threat.Config → ℕ → PolicyState → ThreatLevel
live cfg now st = effective_level (maybe_cooldown cfg now st.threat)

pub decide_live_lem :
    (cfg : Threat.Config) (now score : ℕ) (matched : Option String) (st : PolicyState)
    → let level = live cfg now st in
      (decide_live cfg now score matched st).0
      ≡ decide matched score (challenge_at cfg level) (deny_at cfg level)
unfolding decide_live current_challenge_threshold current_deny_threshold
decide_live_lem cfg now score matched st = rw (maybe_cooldown_idem cfg now st.threat) refl

decide_allowed :
    (matched : Option String) (score c d : ℕ) {reason sub : String} {s : ℕ}
    → decide matched score c d ≡ allowed reason s sub
    → (matched ≡ some sub) × (score < c) × (score < d) × (s ≡ score)
unfolding decide
decide_allowed none score c d h = cc
decide_allowed (some m) score c d h = ground arith

module _ (cfg : Threat.Config) (casbin : Casbin) (now : ℕ) (req : Request) (st : PolicyState) where
  -- The enforcer on the request's path and method.
  abbrev pub enforced : String → Option Bool
  enforced x =
      casbin.enforce x (normalize_resource req.original_url) (casbin.to_upper_case req.method)

  pub evaluate_user_decided :
      (user : UserClaims) {matched : Option String}
      → first_allowed enforced (build_subjects user) ≡ some matched
      → evaluate_user cfg casbin now req user st
        ≡ decide_live cfg now (score_of casbin req user) matched st
  unfolding evaluate_user
  evaluate_user_decided user e = rw (e, evaluate_user) refl

  pub evaluate_user_threw :
      (user : UserClaims)
      → first_allowed enforced (build_subjects user) ≡ none
      → evaluate_user cfg casbin now req user st ≡ (
        denied "policy_error" (score_of casbin req user) none,
        emit_deny cfg now
            (record st { errors = suc st.errors; decisions = label_deny ∷ st.decisions }),
      )
  unfolding evaluate_user
  evaluate_user_threw user e = rw (e, evaluate_user) refl

  -- What an ALLOW for a user rests on.
  pub record IsAllowed (user : UserClaims) (sub : String) (score : ℕ) : Type 0 where
    pub first : FirstAllowed enforced sub (build_subjects user)
    pub scored : score ≡ score_of casbin req user
    pub below_challenge : score < challenge_at cfg (live cfg now st)
    pub below_deny : score < deny_at cfg (live cfg now st)

  evaluate_user_allowed :
      (user : UserClaims) {reason sub : String} {s : ℕ}
      → (evaluate_user cfg casbin now req user st).0 ≡ allowed reason s sub
      → IsAllowed user sub s
  evaluate_user_allowed user {reason} {sub} {s} h =
      elim (Option-cases (first_allowed enforced (build_subjects user))) [
        | inl threw ↦ absurd (ground (arith, evaluate_user_threw user threw))
        | inr (matched, e) ↦
            let level = live cfg now st in
            let run = evaluate_user_decided user e in
            let d = decide_live_lem cfg now (score_of casbin req user) matched st in
            let made : decide matched (score_of casbin req user) (challenge_at cfg level)
                  (deny_at cfg level)
                ≡ allowed reason s sub =
              sym d ∙ ap (λ r. r.0) (sym run) ∙ h in
            let (which, c, t, same) = decide_allowed matched _ _ _ made in
            record {
              first = first_allowed-FirstAllowed enforced (build_subjects user) (rw which at e);
              scored = same;
              below_challenge = rw same c;
              below_deny = rw same t;
            }
      ]

  -- A request is allowed only if it carries a user, the enforcer allows one of that user's own
  -- subjects on the normalized path and method having refused those before it, and the score lies
  -- below both thresholds of the level in force.
  pub evaluate_allowed :
      {reason sub : String} {s : ℕ}
      → (evaluate cfg casbin now req st).0 ≡ allowed reason s sub
      → (user : UserClaims) × (req.user ≡ some user) × IsAllowed user sub s
  unfolding evaluate
  evaluate_allowed {reason} {sub} {s} h = elim (Option-cases req.user) [
    | inl nobody ↦ absurd (ground arith)
    | inr (user, e) ↦
        (user, e, evaluate_user_allowed user {reason = reason} (rw (e, evaluate) at h))
  ]

  -- What a decision on an authenticated request does to the state, where the enforcer answers.
  abbrev pub recorded : PolicyDecision → PolicyState → PolicyState
  recorded decision st' = elim (label_of decision) [
    | label_deny ↦ record st' {
      threat = record_signal cfg now policy_deny st'.threat;
      decisions = label_deny ∷ st'.decisions;
    }
    | l ↦ record st' { decisions = l ∷ st'.decisions }
  ]

  emit_label :
      (d : PolicyDecision) (st' : PolicyState)
      → let counted = record st' { decisions = label_of d ∷ st'.decisions } in
        elim (label_of d) [ label_deny ↦ emit_deny cfg now counted | _ ↦ counted ] ≡ recorded d st'
  unfolding emit_deny
  emit_label (allowed r s sub) st' = refl
  emit_label (challenged r s sub) st' = refl
  emit_label (denied r s sub) st' = refl

  decide_live_state :
      (score : ℕ) (matched : Option String)
      → (decide_live cfg now score matched st).1
        ≡ recorded
            (decide_live cfg now score matched st).0
            (record st { threat = maybe_cooldown cfg now st.threat })
  unfolding decide_live current_challenge_threshold current_deny_threshold
  decide_live_state score matched =
      let run = decide_live cfg now score matched st in
      subst (λ t. run.1 ≡ recorded run.0 (record st { threat = t }))
        (maybe_cooldown_idem cfg now st.threat)
        (emit_label run.0
          (record st { threat = maybe_cooldown cfg now (maybe_cooldown cfg now st.threat) }))

  -- Every decision on an authenticated request is counted once under its label, and is fed back
  -- as a POLICY_DENY signal exactly if it is a denial. If the enforcer throws before it allows a
  -- subject, the decision is a denial, the error is counted, and the cooldown is not applied.
  pub evaluate-recorded :
      (user : UserClaims)
      → req.user ≡ some user
      → let r = evaluate cfg casbin now req st in
        ((first_allowed enforced (build_subjects user) ≡ none)
          × (r.0 ≡ denied "policy_error" (score_of casbin req user) none)
          × (r.1 ≡ recorded r.0 (record st { errors = suc st.errors })))
        ⊎ ((first_allowed enforced (build_subjects user) ≢ none)
            × (r.1 ≡ recorded r.0 (record st { threat = maybe_cooldown cfg now st.threat })))
  unfolding evaluate emit_deny
  evaluate-recorded user e =
      rw (e, evaluate)
        (elim (Option-cases (first_allowed enforced (build_subjects user))) [
          | inl threw ↦ rw (evaluate_user_threw user threw) (inl (threw, refl, refl))
          | inr (matched, found) ↦
              rw (evaluate_user_decided user found)
                (inr (λ n. cc, decide_live_state (score_of casbin req user) matched))
        ])
