-- ===== src/Tests/Transport.antt =====
-- Runs of src/proxy/proxy.service.ts with an upstream that answers at its second attempt.
use zt_access_gateway.Common.{
  ℕ, String, ◌≡◌, refl, ap, true, ◌||◌, none, some, List, [], ◌∷◌, arith, ◌==◌, codes, nat_eq,
  if◌then◌else◌,
}
use zt_access_gateway.JsMap.{get}
use zt_access_gateway.Request.{UserClaims, Request, extract_ja4h, contains, before_query}
use zt_access_gateway.Proxy.Dns.{
  Dns, blocked_exact, uint32_from, ipv4_to_uint32, masked, in_cidr, assert_safe,
  assert_safe-loopback, safe, blocked,
}
use zt_access_gateway.Proxy.Registry.{
  resolve, first_segment, extract_service_name, slice_past, strip_prefix, list_services,
}
use zt_access_gateway.Proxy.Headers.{
  is_stripped, build_proxy_headers, injected, last_value, build_proxy_headers-get,
}
use zt_access_gateway.Proxy.Retry.{
  AxiosResponse, AxiosOutcome, is_retriable_status, backoff, begins, occurs, is_json_type,
  is_transient, settle, execute_from, execute_with_retry, assert_valid_proxy_response, answered,
  proxied,
}
use zt_access_gateway.Proxy.Retry.Settled.{IsSettled, execute_with_retry-IsSettled}
use zt_access_gateway.Proxy.Forward.{
  Outgoing, Transport, ProxyConfig, ends_with_slash, checked, fire, send_to, forward, runs,
}
use zt_access_gateway.Proxy.Forward.Sent.{IsSent, IsAnswered, forward-IsAnswered}

abbrev dns : Dns
dns = record {
  lookup_address = λ name. some (if name == "users.local" then "10.1.2.3" else "127.0.0.9");
  ipv4_octets =
      λ address. some (if address == "10.1.2.3" then 10 ∷ 1 ∷ 2 ∷ 3 ∷ [] else 127 ∷ 0 ∷ 0 ∷ 9 ∷ []);
}

assert_safe-loopback_example :
    assert_safe dns "evil.local"
    ≡ (if contains "127.0.0.9" blocked_exact || nat_eq 127 127 then blocked "127.0.0.9" else safe)
assert_safe-loopback_example =
    assert_safe-loopback dns "evil.local" "127.0.0.9" 127 0 0 9 refl refl (omega arith)
      (omega arith) (omega arith) (omega arith)

abbrev busy : AxiosOutcome String
busy = answered (record { status = 503; content_type = none; data_of = none })

abbrev profile : AxiosResponse String
profile = record { status = 200; content_type = some "Application/JSON"; data_of = some "{}" }

abbrev upstream : ℕ → AxiosOutcome String
upstream attempt = if nat_eq attempt 0 then busy else answered profile

-- One wait, two requests.
retried_once :
    execute_with_retry upstream 3
    ≡ record { outcome = proxied profile; sleeps = 100 ∷ []; requests = 2 }
unfolding execute_with_retry execute_from is_transient is_retriable_status settle backoff
retried_once = refl

execute_with_retry-IsSettled_example : IsSettled upstream 3 0 3 (execute_with_retry upstream 3)
execute_with_retry-IsSettled_example = execute_with_retry-IsSettled upstream 3

abbrev alice : UserClaims
alice = record {
  user_id = "alice";
  roles = "user" ∷ "auditor" ∷ [];
  jti = "t1";
  exp = 900;
  email = none;
  session_id = none;
  device_id = "phone";
}

abbrev client_headers : List (String × String)
client_headers = ("authorization", "Bearer t.o.k") ∷ ("x-user-id", "root") ∷ ("accept", "*/*") ∷ []

build_proxy_headers-get_example :
    get "x-user-id" (build_proxy_headers (λ n. "0.2") client_headers alice 200000 (some "fp"))
    ≡ elim (injected (λ n. "0.2") alice 200000 (some "fp") "x-user-id") [
      | some own ↦ some own
      | none ↦ if is_stripped "x-user-id" then none else last_value "x-user-id" client_headers none
    ]
build_proxy_headers-get_example =
    build_proxy_headers-get (λ n. "0.2") client_headers alice 200000 (some "fp") "x-user-id"

abbrev profile_request : Request
profile_request = record {
  method = "GET";
  original_url = "/users/profile?full=1";
  headers = client_headers;
  remote_address = some "10.0.0.7";
  ja4h = some "fp";
  user = none;
  gateway_validated = true;
  trust_score = none;
}

abbrev transport : Transport String
transport = record {
  parse_url = λ url. some ("/users/profile", "?full=1");
  join_url = λ path base. some ("http://users.local/profile?full=1", "users.local");
  dns = dns;
  has_agent = true;
  breaker = λ service. runs;
  axios = λ out. upstream;
  show = λ n. "0.2";
}

abbrev config : ProxyConfig
config = record { service_registry = ("users", "http://users.local") ∷ []; max_retries = 3 }

abbrev users_outgoing : Outgoing
users_outgoing = record {
  method = "GET";
  url = "http://users.local/profile?full=1";
  headers = build_proxy_headers (λ n. "0.2") client_headers alice 200000 (some "fp");
}

forwarded_profile :
    forward transport config profile_request alice 200000
    ≡ record { result = proxied profile; sent = some users_outgoing }
unfolding forward before_query extract_service_name first_segment resolve get strip_prefix
    slice_past ends_with_slash send_to assert_safe in_cidr ipv4_to_uint32 uint32_from masked
    contains list_services fire checked execute_with_retry execute_from is_transient
    is_retriable_status settle assert_valid_proxy_response is_json_type occurs begins codes
    extract_ja4h
forwarded_profile = refl

forward-IsAnswered_example :
    (out : Outgoing) × ((forward transport config profile_request alice 200000).sent ≡ some out)
    × IsSent transport config profile_request alice 200000 out
    × IsAnswered transport config out profile
forward-IsAnswered_example =
    forward-IsAnswered transport config profile_request alice 200000 {response = profile}
      (ap (λ f. f.result) forwarded_profile)
