-- ===== src/Tests/Auth.antt =====
-- Runs of src/auth with a JWT library that knows one token.
use zt_access_gateway.Common.{
  ℕ, ◌≡◌, refl, ◌⊎◌, true, false, none, some, [], ◌∷◌, ◌==◌, ltb, if◌then◌else◌,
}
use zt_access_gateway.JsMap.{get, set, delete}
use zt_access_gateway.Request.{UserClaims, Request, trim, contains}
use zt_access_gateway.Gateway.{ok}
use zt_access_gateway.Stores.Revocation.{Blacklist, revoke, is_revoked, get_entry}
use zt_access_gateway.Auth.{
  JwtPayload, Jose, AuthConfig, split_space, text_roles, extract_claims, verify_by_alg,
  validate_token, authenticate, role, not_text, array, other_jose_error, returns, throws,
}
use zt_access_gateway.Auth.Authentic.{IsAuthentic, authenticate-IsAuthentic}
use zt_access_gateway.Auth.Routes.{
  jwt_auth_guard, roles_guard, revoke_route, IsOthers, revoke_route-outcome, revoked_token,
  not_the_owner,
}
use zt_access_gateway.Mfa.Enrollment.{
  EnrollCrypto, EnrollConfig, EnrollEnv, EnrollState, delete_enrollment,
}
use zt_access_gateway.Mfa.Controller.{admin_delete_enrollment, admin_delete_route}
use zt_access_gateway.Mfa.Controller.Admin.{
  HasAdmin, IsVouched, Resets, Refuses, admin_delete_route-IsAdmin,
}

abbrev root_payload : JwtPayload
root_payload = record {
  sub = "root";
  jti = "t1";
  exp = 900;
  typ = none;
  device_id = some "phone";
  roles = array (role "admin" ∷ not_text ∷ []);
  email = none;
  session_id = none;
}

abbrev jose : Jose
jose = record {
  decode_protected_header =
      λ t. if t == "t.o.k" then returns "HS256" else throws (other_jose_error "malformed");
  import_spki = λ pem alg. throws (other_jose_error "no key");
  jwt_verify = λ t key o. returns root_payload;
}

abbrev auth_config : AuthConfig
auth_config = record {
  jwt_secret = "s3cret";
  jwt_public_key = none;
  jwks_uri = none;
  jwt_issuer = none;
  jwt_audience = none;
}

abbrev root : UserClaims
root = record {
  user_id = "root";
  roles = "admin" ∷ [];
  jti = "t1";
  exp = 900;
  email = none;
  session_id = none;
  device_id = "phone";
}

root_accepted : authenticate jose auth_config (some "Bearer t.o.k") ≡ ok root
unfolding authenticate split_space validate_token verify_by_alg extract_claims text_roles trim
root_accepted = refl

authenticate-IsAuthentic_example : IsAuthentic jose auth_config "Bearer t.o.k" root
authenticate-IsAuthentic_example =
    authenticate-IsAuthentic jose auth_config "Bearer t.o.k" {claims = root} root_accepted

abbrev carol : UserClaims
carol = record root { user_id = "carol"; roles = [] }

abbrev taken : Blacklist
taken = ("j9", record { expires_at = 9000; user_id = "dave" }) ∷ []

-- Another user's token that is not revoked yet is revoked; one that is revoked is refused.
revoke_twice :
    ((revoke_route (some carol) "j1" 5 100 taken).0 ≡ revoked_token)
    × ((revoke_route (some carol) "j9" 5 100 taken).0 ≡ not_the_owner)
unfolding revoke_route contains get_entry revoke get set
revoke_twice = (refl, refl)

revoke_route-outcome_example :
    let r = revoke_route (some carol) "j9" 5 100 taken in
    ((r.0 ≡ revoked_token)
      × ((later : ℕ) → (is_revoked "j9" later r.1).0 ≡ ltb later 5000)
      × ((contains "admin" [] ≡ true) ⊎ (IsOthers "carol" "j9" 100 taken → ⊥)))
    ⊎ ((r.0 ≡ not_the_owner)
        × (contains "admin" [] ≡ false)
        × IsOthers "carol" "j9" 100 taken
        × (r.1 ≡ taken))
revoke_route-outcome_example = revoke_route-outcome carol "j9" 5 100 taken

abbrev reset_request : Request
reset_request = record {
  method = "DELETE";
  original_url = "/mfa/admin/enrollment/alice";
  headers = ("authorization", "Bearer t.o.k") ∷ [];
  remote_address = some "10.0.0.7";
  ja4h = some "fp";
  user = some root;
  gateway_validated = true;
  trust_score = none;
}

abbrev crypto : EnrollCrypto
crypto = record {
  hmac_sha1 = λ key msg. [];
  aes_gcm_encrypt = λ s. s;
  encode_uri_component = λ s. s;
}

abbrev config : EnrollConfig
config = record { enroll_pending_ttl_ms = 600000; issuer_name = "gateway" }

abbrev env : EnrollEnv
env = record { now = 5; up = λ n. true; uuid = "e1"; secret = "ABCD" }

abbrev enrolled : EnrollState
enrolled = record { pending = []; secrets = ("alice", "sealed") ∷ []; events = [] }

-- The admin's request is let in, and alice's secret goes.
reset_runs :
    (admin_delete_route crypto config env jose auth_config reset_request "alice" enrolled).1.secrets
    ≡ []
unfolding admin_delete_route jwt_auth_guard roles_guard contains admin_delete_enrollment
    delete_enrollment delete get
reset_runs = refl

admin_delete_route-IsAdmin_example :
    let r = admin_delete_route crypto config env jose auth_config reset_request "alice" enrolled in
    (HasAdmin reset_request × IsVouched jose auth_config reset_request × Resets "alice" enrolled r)
    ⊎ ((HasAdmin reset_request → ⊥) × Refuses 403 enrolled r)
    ⊎ (HasAdmin reset_request × (reset_request.gateway_validated ≡ false) × Refuses 401 enrolled r)
admin_delete_route-IsAdmin_example =
    admin_delete_route-IsAdmin crypto config env jose auth_config reset_request "alice" enrolled
