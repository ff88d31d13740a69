-- ===== src/Tests/Gateway.antt =====
-- A request through the whole pipeline of src/gateway, with small services whose state is the
-- number of audit writes; an audit write succeeds while fewer than two have been made.
use zt_access_gateway.Common.{
  ℕ, suc, String, ◌≡◌, refl, true, false, none, some, [], ◌∷◌, ◌==◌, leb,
}
use zt_access_gateway.Request.{UserClaims, Request, before_query}
use zt_access_gateway.Hashcash.Service.{verified}
use zt_access_gateway.Policy.Evaluator.{challenged}
use zt_access_gateway.Gateway.{Runtime, Services, World, gave, ok, created, error_body, plain_body}
use zt_access_gateway.Gateway.Stages.{
  public_bypass, honeypot_bypass, auth, revocation, auth_only, trust_score, policy, audit_allow,
  proxy, bopla_strip, record_trust_context,
}
use zt_access_gateway.Gateway.Stages.Mfa.{mfa_stage}
use zt_access_gateway.Gateway.Stages.Pow.{hashcash}
use zt_access_gateway.Gateway.Middleware.{use_middleware, response}
use zt_access_gateway.Gateway.Protocol.{forwards}
use zt_access_gateway.Gateway.Protocol.Grant.{rules_of}
use zt_access_gateway.Gateway.Protocol.Replies.{
  IsServed, IsGuarded, use_middleware-IsGuarded, use_middleware_outage, use_middleware-IsServed,
}

abbrev alice : UserClaims
alice = record {
  user_id = "alice";
  roles = "clerk" ∷ [];
  jti = "t1";
  exp = 5000;
  email = none;
  session_id = none;
  device_id = "phone";
}

abbrev runtime : Runtime String
runtime = record {
  top_keys = λ j. some (j ∷ []);
  to_number = λ s. none;
  show = λ n. "8";
  to_iso = λ n. "2026";
  random_uuid = "r1";
}

-- The policy challenges every request; the token "good" is valid.
abbrev services : Services String ℕ
services = record {
  authenticate = λ req n. (gave (ok alice), n);
  is_revoked = λ jti n. (false, n);
  audit_log = λ entry n. record { db = suc n; exhausted = leb 2 n; elapsed = 5; record_failed = 0 };
  demo_is_active = false;
  evaluate_score = λ tctx n. (gave 400000, n);
  issue_challenge =
      λ user device score n. (record { nonce = "p.m"; difficulty = 8; expires_at = 60 }, n);
  verify_solution = λ nonce solution score user device n. (verified 7, n);
  policy_evaluate = λ req n. (gave (challenged "score_in_challenge_band" 400000 none), n);
  validate_mfa_token = λ t user device ip ja4h n. (t == "good", n);
  create_challenge = λ user ip ja4h n. (created "c1" 60, n);
  forward = λ req user score n. (gave (record { status = 200; data_of = some "orders" }), n);
  strip = λ body path roles. body;
  record_trust_context = λ tctx score n. (gave tt, n);
}

abbrev request_with : String → Request
request_with mfa_token = record {
  method = "GET";
  original_url = "/api/orders?page=1";
  headers = ("x-mfa-token", mfa_token) ∷ [];
  remote_address = some "10.0.0.7";
  ja4h = none;
  user = none;
  gateway_validated = false;
  trust_score = none;
}

abbrev empty_world : World ℕ
empty_world = record { services = 0; calls = []; notes = [] }

use_middleware-IsGuarded_example :
    IsGuarded
      (rules_of services runtime none (before_query "/api/orders?page=1"))
      (use_middleware services runtime none (request_with "bad") 0).world.calls
use_middleware-IsGuarded_example =
    use_middleware-IsGuarded services runtime none (request_with "bad") 0

served_here :
    (use_middleware services runtime none (request_with "good") 0).reply
    ≡ response 200 [] (plain_body (some "orders"))
unfolding use_middleware public_bypass honeypot_bypass auth revocation auth_only trust_score
    hashcash policy mfa_stage audit_allow proxy bopla_strip record_trust_context
served_here = refl

use_middleware-IsServed_example :
    IsServed
      (rules_of services runtime none (before_query "/api/orders?page=1"))
      200
      (some "orders")
      (use_middleware services runtime none (request_with "good") 0).world.calls
use_middleware-IsServed_example =
    use_middleware-IsServed services runtime none (request_with "good") 0 {status = 200}
      {headers = []} {body = some "orders"} served_here

abbrev probe : Request
probe = record (request_with "good") { original_url = "/.env?x=1" }

-- With no room left for its ALLOW entry the request is not forwarded.
outage_here :
    (use_middleware services runtime none (request_with "good") 2).reply
    ≡ response 503 (("Retry-After", "5") ∷ []) (error_body "audit_unavailable" [] "r1")
unfolding use_middleware public_bypass honeypot_bypass auth revocation auth_only trust_score
    hashcash policy mfa_stage audit_allow
outage_here = refl

abbrev deaf_services : Services String ℕ
deaf_services = record services {
  audit_log = λ entry n. record { db = n; exhausted = true; elapsed = 5; record_failed = 0 };
}

use_middleware_outage_example :
    forwards (use_middleware deaf_services runtime none (request_with "good") 0).world.calls ≡ 0
use_middleware_outage_example =
    use_middleware_outage deaf_services runtime none (request_with "good") 0 (λ entry n. refl)
