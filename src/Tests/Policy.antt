-- ===== src/Tests/Policy.antt =====
-- Runs of src/policy: the threat levels and the evaluator.
use zt_access_gateway.Common.{
  ◌≤◌, ◌≡◌, refl, ◌≢◌, ◌⊎◌, true, ◌&&◌, none, some, [], ◌∷◌, arith, ◌==◌, All,
}
use zt_access_gateway.Request.{UserClaims, Request, before_query}
use zt_access_gateway.Policy.Threat
use zt_access_gateway.Policy.Threat.{
  ThreatLevel, Threat, init, order, transition_to, evict, candidates, highest, recompute_level,
  record_signal, maybe_cooldown, current_challenge_threshold, current_deny_threshold, normal,
  elevated, critical, policy_deny, honeypot_trigger,
}
use zt_access_gateway.Policy.Threat.Window.{IsFresh, IsWindow, level_after, record_signal-IsWindow}
use zt_access_gateway.Policy.Threat.Consistency
use zt_access_gateway.Policy.Threat.Consistency.{
  IsConsistent, history-IsConsistent, signals, sets, clears, snapshots,
}
use zt_access_gateway.Policy.Evaluator.{
  Casbin, PolicyState, build_subjects, strip_slash, normalize_resource, first_allowed, decide,
  score_of, decide_live, evaluate_user, evaluate, IsTightened, allowed, denied,
}
use zt_access_gateway.Policy.Evaluator.Decisions.{
  live, enforced, IsAllowed, evaluate_allowed, recorded, evaluate-recorded,
}
use zt_access_gateway.Policy.Evaluator.Strictness.{strictness, evaluate-strictness}

abbrev config : Threat.Config
config = record {
  challenge_threshold = 600000;
  deny_threshold = 850000;
  elevated_challenge_threshold = 450000;
  elevated_deny_threshold = 700000;
  critical_challenge_threshold = 300000;
  critical_deny_threshold = 500000;
  threat_window_ms = 1000;
  threat_window_max_events = 4;
  threat_elevated_denies = 2;
  threat_critical_denies = 4;
  threat_elevated_invalid_tokens = 2;
  threat_critical_invalid_tokens = 4;
  threat_elevated_honeypot = 1;
  threat_critical_honeypot = 3;
  threat_elevated_mfa_rate_limited = 2;
  threat_critical_mfa_rate_limited = 4;
  threat_cooldown_ms = 500;
}

abbrev threat_at : ThreatLevel → Threat
threat_at l = record {
  events = record { ts = 100; type = policy_deny } ∷ [];
  level = l;
  last_transition_at = 100;
  last_signal_at = 100;
  manual_override = none;
  gauge = l;
  transitions = [];
}

record_signal-IsWindow_example :
    IsWindow config 400 (record_signal config 400 policy_deny (threat_at normal)).events
    × All (IsFresh config 400) (record_signal config 400 policy_deny (threat_at normal)).events
    × ((record_signal config 400 policy_deny (threat_at normal)).level
        ≡ level_after config
            (threat_at normal)
            (record_signal config 400 policy_deny (threat_at normal)).events)
record_signal-IsWindow_example =
    record_signal-IsWindow config 200 400 policy_deny (threat_at normal)
      (record { sorted = (tt, tt); past = (omega arith, tt); bounded = omega arith }) (omega arith)

two_denies_raise : (record_signal config 400 policy_deny (threat_at normal)).level ≡ elevated
unfolding record_signal evict recompute_level candidates highest transition_to Threat.count_type
    Threat.capped
two_denies_raise = refl

history-IsConsistent_example : IsConsistent (
    Consistency.call_all config
      (init 0)
      ((10, signals honeypot_trigger) ∷ (20, sets critical) ∷ (30, snapshots) ∷ (900, clears) ∷ []))
history-IsConsistent_example =
    history-IsConsistent config 0
      ((10, signals honeypot_trigger) ∷ (20, sets critical) ∷ (30, snapshots) ∷ (900, clears) ∷ [])

abbrev alice : UserClaims
alice = record {
  user_id = "alice";
  roles = "clerk" ∷ "admin" ∷ [];
  jti = "t1";
  exp = 5000;
  email = none;
  session_id = none;
  device_id = "phone";
}

abbrev order_request : Request
order_request = record {
  method = "GET";
  original_url = "/api/orders/?page=1";
  headers = [];
  remote_address = some "10.0.0.7";
  ja4h = none;
  user = some alice;
  gateway_validated = true;
  trust_score = some 400000;
}

-- Only administrators may read orders.
abbrev casbin : Casbin
casbin = record {
  enforce = λ sub obj act. some (sub == "role:admin" && obj == "/api/orders");
  to_upper_case = λ m. m;
  evaluate_score = λ tctx. 0;
}

abbrev state_at : ThreatLevel → PolicyState
state_at l = record { threat = threat_at l; decisions = []; errors = 0 }

allowed_here :
    (evaluate config casbin 200 order_request (state_at normal)).0
    ≡ allowed "score_below_challenge_threshold" 400000 "role:admin"
unfolding evaluate evaluate_user first_allowed normalize_resource strip_slash before_query
    build_subjects score_of decide_live current_challenge_threshold current_deny_threshold
    maybe_cooldown decide
allowed_here = refl

evaluate_allowed_example :
    (user : UserClaims) × (order_request.user ≡ some user)
    × IsAllowed config casbin 200 order_request (state_at normal) user "role:admin" 400000
evaluate_allowed_example =
    evaluate_allowed config casbin 200 order_request (state_at normal)
      {reason = "score_below_challenge_threshold"} {sub = "role:admin"} {s = 400000} allowed_here

evaluate-recorded_example :
    ((first_allowed
          (enforced config casbin 200 order_request (state_at normal))
          (build_subjects alice)
        ≡ none)
      × ((evaluate config casbin 200 order_request (state_at normal)).0
          ≡ denied "policy_error" (score_of casbin order_request alice) none)
      × ((evaluate config casbin 200 order_request (state_at normal)).1
          ≡ recorded config casbin 200 order_request
              (state_at normal)
              (evaluate config casbin 200 order_request (state_at normal)).0
              (record { threat = threat_at normal; decisions = []; errors = 1 })))
    ⊎ ((first_allowed
            (enforced config casbin 200 order_request (state_at normal))
            (build_subjects alice)
          ≢ none)
        × ((evaluate config casbin 200 order_request (state_at normal)).1
            ≡ recorded config casbin 200 order_request
                (state_at normal)
                (evaluate config casbin 200 order_request (state_at normal)).0
                (record {
                  threat = maybe_cooldown config 200 (threat_at normal);
                  decisions = [];
                  errors = 0;
                })))
evaluate-recorded_example =
    evaluate-recorded config casbin 200 order_request (state_at normal) alice refl

tightened : IsTightened config
tightened = record {
  elevated_challenge = omega arith;
  critical_challenge = omega arith;
  elevated_deny = omega arith;
  critical_deny = omega arith;
  denies = omega arith;
  invalid_tokens = omega arith;
  honeypot = omega arith;
  mfa_rate_limited = omega arith;
}

levels_here :
    order (live config 200 (state_at normal)) ≤ order (live config 200 (state_at critical))
unfolding maybe_cooldown
levels_here = omega arith

evaluate-strictness_example :
    strictness (evaluate config casbin 200 order_request (state_at normal)).0
    ≤ strictness (evaluate config casbin 200 order_request (state_at critical)).0
evaluate-strictness_example =
    evaluate-strictness config casbin 200 order_request (state_at normal) (state_at critical)
      tightened levels_here
