-- ===== src/Proxy/Forward.antt =====
-- src/proxy/proxy.service.ts (`forward`). The URL library, the look-up of names, axios and the
-- circuit breaker are parameters; whether the mTLS service has an agent is one too. The body of
-- the request goes along unchanged and is left out. Messages are kept where they are constant.
pub mod Sent
use zt_access_gateway.Common.{
  ℕ, String, Bool, false, not, Option, none, some, List, ◌==◌, concat, if◌then◌else◌,
}
use zt_access_gateway.Request.{UserClaims, Request, extract_ja4h, contains, before_query}
use zt_access_gateway.Proxy.Registry.{resolve, extract_service_name, strip_prefix, list_services}
use zt_access_gateway.Proxy.Dns.{Dns, assert_safe, safe, lookup_failed, blocked}
use zt_access_gateway.Proxy.Headers.{build_proxy_headers}
use zt_access_gateway.Proxy.Retry.{
  AxiosOutcome, ProxyError, Proxied, execute_with_retry, assert_valid_proxy_response, not_found,
  forbidden, service_unavailable, other_failure, proxied, thrown,
}

pub record Outgoing : Type 0 where
  pub method : String
  pub url : String
  pub headers : List (String × String)

-- What opossum does with a call: it runs it, refuses it, or runs it and times it out. The last two
-- are errors of its own.
pub data Breaker : Type 0 where
  runs refuses times_out : Breaker

pub record Transport (Body : Type 0) : Type 0 where
  -- `new URL(url, placeholder)`: the pathname and the search; `none` where it throws.
  pub parse_url : String → Option (String × String)
  -- `new URL(path, base)`: the text of the URL and its host name.
  pub join_url : String → String → Option (String × String)
  pub dns : Dns
  pub has_agent : Bool
  pub breaker : String → Breaker
  pub axios : Outgoing → ℕ → AxiosOutcome Body
  pub show : ℕ → String

pub record ProxyConfig : Type 0 where
  pub service_registry : List (String × String)
  pub max_retries : ℕ

pub record Forwarded (Body : Type 0) : Type 0 where
  pub result : Proxied Body
  pub sent : Option Outgoing

unfoldable pub ends_with_slash : String → Bool
ends_with_slash String.[] = false
ends_with_slash (String.◌∷◌ c s) =
    let later = ends_with_slash s in if s == "" then String.◌∷◌ c s == "/" else later

abbrev pub with_slash : String → String
with_slash base = if ends_with_slash base then base else concat base "/"

module _ {Body : Type 0} (t : Transport Body) (cfg : ProxyConfig) where
  abbrev pub stops : ProxyError → Forwarded Body
  stops e = record { result = thrown e; sent = none }

  -- The answer of the fired call, checked; an error of the breaker's own is a 503.
  unfoldable pub checked : Proxied Body → Proxied Body
  checked (thrown e) = thrown e
  checked (proxied response) = assert_valid_proxy_response response

  unfoldable pub fire : String → Outgoing → Forwarded Body
  unfolding execute_with_retry checked
  fire service out = elim (t.breaker service) [
    | refuses ↦ stops (service_unavailable "Circuit open for service")
    | times_out ↦ record {
      result = thrown (service_unavailable "Circuit open for service");
      sent = some out;
    }
    | runs ↦ record {
      result = checked (execute_with_retry (t.axios out) cfg.max_retries).outcome;
      sent = some out;
    }
  ]

  -- From the guard on, once the target is known.
  unfoldable pub send_to : Request → UserClaims → ℕ → String → String × String → Forwarded Body
  unfolding fire assert_safe build_proxy_headers list_services
  send_to req claims trust_score service target = elim (assert_safe t.dns target.1) [
    | lookup_failed ↦ stops other_failure
    | blocked address ↦ stops (forbidden "DNS rebinding guard")
    | safe ↦
        if not (contains service (list_services cfg.service_registry))
        then stops (service_unavailable "No circuit breaker for service")
        else if t.has_agent
        then fire service (record {
          method = req.method;
          url = target.0;
          headers = build_proxy_headers t.show req.headers claims trust_score (extract_ja4h req);
        })
        else stops other_failure
  ]

  unfoldable pub forward : Request → UserClaims → ℕ → Forwarded Body
  unfolding send_to extract_service_name resolve strip_prefix before_query
  forward req claims trust_score = elim (extract_service_name (before_query req.original_url)) [
    | none ↦ stops (not_found "Cannot extract service name from path")
    | some service ↦ elim (resolve service cfg.service_registry) [
      | none ↦ stops (not_found "Unknown service")
      | some base ↦ elim (t.parse_url req.original_url) [
        | none ↦ stops other_failure
        | some parsed ↦
            elim (t.join_url (concat (strip_prefix parsed.0) parsed.1) (with_slash base)) [
              | none ↦ stops other_failure
              | some target ↦ send_to req claims trust_score service target
            ]
      ]
    ]
  ]
