-- ===== src/Proxy/Retry.antt =====
-- src/proxy/proxy.service.ts (`executeWithRetry`) and response-validator.ts. What axios comes to
-- at an attempt, counted from 0, is a parameter. `sleeps` are the waits, in milliseconds.
pub mod Settled
use zt_access_gateway.Common.{
  ℕ, zero, suc, ◌+◌, String, Bool, true, false, not, ◌&&◌, ◌||◌, Option, none, some, List, [], ◌∷◌,
  map, codes, leb, nat_eq, if◌then◌else◌,
}
use zt_access_gateway.Request.{contains}

pub record AxiosResponse (Body : Type 0) : Type 0 where
  pub status : ℕ
  -- The first value of the header, where it is a text.
  pub content_type : Option String
  pub data_of : Option Body

pub data AxiosOutcome (Body : Type 0) : Type 0 where
  answered : AxiosResponse Body → AxiosOutcome Body
  -- An error with its code.
  errored : Option String → AxiosOutcome Body

pub data ProxyError : Type 0 where
  not_found forbidden service_unavailable bad_gateway upstream_error : String → ProxyError
  network_error : Option String → ProxyError
  upstream_gone : ℕ → ℕ → ProxyError
  other_failure : ProxyError

pub data Proxied (Body : Type 0) : Type 0 where
  proxied : AxiosResponse Body → Proxied Body
  thrown : ProxyError → Proxied Body

pub record Retried (Body : Type 0) : Type 0 where
  pub outcome : Proxied Body
  pub sleeps : List ℕ
  pub requests : ℕ

unfoldable pub is_retriable_status : ℕ → Bool
is_retriable_status status = nat_eq status 502 || nat_eq status 503 || nat_eq status 504

abbrev pub retriable_error_codes : List String
retriable_error_codes = "ECONNREFUSED" ∷ "ETIMEDOUT" ∷ "ECONNRESET" ∷ []

unfoldable pub backoff : ℕ → ℕ
backoff zero = 100
backoff (suc zero) = 200
backoff (suc (suc attempt)) = 400

-- `ct.toLowerCase().includes('application/json')`
abbrev lower : ℕ → ℕ
lower c = if leb b'A' c && leb c b'Z' then c + 32 else c

unfoldable pub begins : List ℕ → List ℕ → Bool
begins [] text = true
begins (p ∷ pattern) [] = false
begins (p ∷ pattern) (c ∷ text) = nat_eq p c && begins pattern text

unfoldable pub occurs : List ℕ → List ℕ → Bool
unfolding begins
occurs pattern [] = begins pattern []
occurs pattern (c ∷ text) = begins pattern (c ∷ text) || occurs pattern text

unfoldable pub is_json_type : Option String → Bool
unfolding codes occurs
is_json_type none = false
is_json_type (some ct) = occurs (codes "application/json") (map lower (codes ct))

module _ {Body : Type 0} where
  unfoldable pub is_transient : AxiosOutcome Body → Bool
  is_transient (answered response) = is_retriable_status response.status
  is_transient (errored none) = false
  is_transient (errored (some code)) = contains code retriable_error_codes

  -- What the loop does with an attempt that it does not repeat.
  unfoldable pub settle : ℕ → AxiosOutcome Body → Proxied Body
  settle max_retries (answered response) =
      if is_retriable_status response.status
      then thrown (upstream_gone response.status max_retries)
      else proxied response
  settle max_retries (errored code) = thrown (network_error code)

  unfoldable pub execute_from : (ℕ → AxiosOutcome Body) → ℕ → ℕ → ℕ → Retried Body
  execute_from axios max_retries zero attempt = record {
    outcome = settle max_retries (axios attempt);
    sleeps = [];
    requests = 1;
  }
  execute_from axios max_retries (suc left) attempt =
      let rest = execute_from axios max_retries left (suc attempt) in
      if is_transient (axios attempt)
      then record {
        outcome = rest.outcome;
        sleeps = backoff attempt ∷ rest.sleeps;
        requests = suc rest.requests;
      }
      else record { outcome = settle max_retries (axios attempt); sleeps = []; requests = 1 }

  unfoldable pub execute_with_retry : (ℕ → AxiosOutcome Body) → ℕ → Retried Body
  unfolding execute_from
  execute_with_retry axios max_retries = execute_from axios max_retries max_retries 0

  unfoldable pub assert_valid_proxy_response : AxiosResponse Body → Proxied Body
  assert_valid_proxy_response response =
      if leb 500 response.status
      then thrown (service_unavailable "Upstream returned")
      else if not (is_json_type response.content_type)
      then thrown (bad_gateway "Unexpected Content-Type from upstream")
      else proxied response
