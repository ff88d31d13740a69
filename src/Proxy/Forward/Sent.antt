-- ===== src/Proxy/Forward/Sent.antt =====
-- src/proxy/proxy.service.ts (`forward`): what reaches an upstream, and what comes back.
use zt_access_gateway.Common.{
  ℕ, ◌+◌, ◌≤◌, ◌<◌, String, ◌≡◌, refl, sym, ap, subst, ◌∙◌, ◌≢◌, ◌⊎◌, inl, inr, true, some, arith,
  concat, Bool-cases, Option-cases,
}
use zt_access_gateway.Request.{UserClaims, Request, extract_ja4h, contains, before_query}
use zt_access_gateway.Proxy.Registry.{resolve, extract_service_name, strip_prefix, list_services}
use zt_access_gateway.Proxy.Dns.{Guard, assert_safe, safe, lookup_failed, blocked}
use zt_access_gateway.Proxy.Headers.{build_proxy_headers}
use zt_access_gateway.Proxy.Retry.{
  AxiosResponse, AxiosOutcome, ProxyError, Proxied, is_json_type, settle, execute_with_retry,
  assert_valid_proxy_response, answered, errored, not_found, forbidden, service_unavailable,
  other_failure, proxied, thrown,
}
use zt_access_gateway.Proxy.Retry.Settled.{execute_with_retry-IsSettled}
use zt_access_gateway.Proxy.Forward.{
  Outgoing, Breaker, Transport, ProxyConfig, with_slash, stops, checked, fire, send_to, forward,
  runs, refuses, times_out,
}

Breaker-cases : (b : Breaker) → (b ≡ refuses) ⊎ (b ≡ times_out) ⊎ (b ≡ runs)
Breaker-cases refuses = inl refl
Breaker-cases times_out = inr (inl refl)
Breaker-cases runs = inr (inr refl)

Guard-cases :
    (g : Guard) → (g ≡ lookup_failed) ⊎ ((address : String) × (g ≡ blocked address)) ⊎ (g ≡ safe)
Guard-cases safe = inr (inr refl)
Guard-cases lookup_failed = inl refl
Guard-cases (blocked address) = inr (inl (address, refl))

module _ {Body : Type 0} (t : Transport Body) (cfg : ProxyConfig) where
  -- The request that went out: to a registered service that the path names, at an address that
  -- the guard let through, with the headers that the gateway builds.
  pub record IsSent (req : Request) (claims : UserClaims) (trust_score : ℕ) (out : Outgoing)
      : Type 0 where
    pub service : String
    pub base : String
    pub parsed : String × String
    pub hostname : String
    pub named : extract_service_name (before_query req.original_url) ≡ some service
    pub registered : resolve service cfg.service_registry ≡ some base
    pub read : t.parse_url req.original_url ≡ some parsed
    pub targeted :
        t.join_url (concat (strip_prefix parsed.0) parsed.1) (with_slash base)
        ≡ some (out.url, hostname)
    pub guarded : assert_safe t.dns hostname ≡ safe
    pub headed :
        out.headers ≡ build_proxy_headers t.show req.headers claims trust_score (extract_ja4h req)
    pub allowed : t.breaker service ≢ refuses

  -- The answer that comes back: an upstream's JSON answer of a status below 500 to a request that
  -- was sent, at one of the allowed attempts.
  pub record IsAnswered (out : Outgoing) (response : AxiosResponse Body) : Type 0 where
    pub attempt : ℕ
    pub tried : attempt ≤ cfg.max_retries
    pub came : t.axios out attempt ≡ answered response
    pub below : response.status < 500
    pub json : is_json_type response.content_type ≡ true

  checked-proxied :
      (p : Proxied Body) {response : AxiosResponse Body}
      → checked t cfg p ≡ proxied response
      → (p ≡ proxied response)
        × (response.status < 500)
        × (is_json_type response.content_type ≡ true)
  unfolding checked assert_valid_proxy_response
  checked-proxied (thrown e) {response} h = absurd (ground arith)
  checked-proxied (proxied r) {response} h =
      let same : r ≡ response = ground arith in
      (
        ap proxied same,
        subst (λ x. x.status < 500) same (ground arith),
        subst (λ x. is_json_type x.content_type ≡ true) same (ground arith),
      )

  settle-proxied :
      (o : AxiosOutcome Body) {response : AxiosResponse Body}
      → settle cfg.max_retries o ≡ proxied response
      → o ≡ answered response
  unfolding settle
  settle-proxied (answered r) h = ground arith
  settle-proxied (errored code) h = absurd (ground arith)

  fire-IsAnswered :
      (service : String) (out : Outgoing) {response : AxiosResponse Body}
      → (fire t cfg service out).result ≡ proxied response
      → IsAnswered out response
        × (t.breaker service ≢ refuses)
        × ((fire t cfg service out).sent ≡ some out)
  unfolding fire
  fire-IsAnswered service out {response} h = elim (Breaker-cases (t.breaker service)) [
    | inl r ↦ absurd (ground arith)
    | inr (inl r) ↦ absurd (ground arith)
    | inr (inr r) ↦
        let settled = execute_with_retry-IsSettled (t.axios out) cfg.max_retries in
        let (outcome, below, json) =
          checked-proxied (execute_with_retry (t.axios out) cfg.max_retries).outcome
            {response = response} (ground arith) in
        (
          record {
            attempt = 0 + settled.tries;
            tried = omega (arith, settled.bounded);
            came = settle-proxied (t.axios out (0 + settled.tries)) (sym settled.decided ∙ outcome);
            below = below;
            json = json;
          },
          λ e. absurd (ground arith),
          ground arith,
        )
  ]

  abbrev outgoing : Request → UserClaims → ℕ → String → Outgoing
  outgoing req claims trust_score url = record {
    method = req.method;
    url = url;
    headers = build_proxy_headers t.show req.headers claims trust_score (extract_ja4h req);
  }

  send_to-fire :
      (req : Request) (claims : UserClaims) (trust_score : ℕ) (service : String)
      (target : String × String)
      → ((e : ProxyError) × (send_to t cfg req claims trust_score service target ≡ stops t cfg e))
        ⊎ ((assert_safe t.dns target.1 ≡ safe)
            × (send_to t cfg req claims trust_score service target
                ≡ fire t cfg service (outgoing req claims trust_score target.0)))
  unfolding send_to
  send_to-fire req claims trust_score service target =
      elim (Guard-cases (assert_safe t.dns target.1)) [
        | inl g ↦ inl (other_failure, ground arith)
        | inr (inl (address, g)) ↦ inl (forbidden "DNS rebinding guard", ground arith)
        | inr (inr g) ↦ elim (Bool-cases (contains service (list_services cfg.service_registry))) [
          | inr unknown ↦ inl (service_unavailable "No circuit breaker for service", ground arith)
          | inl known ↦ elim (Bool-cases t.has_agent) [
            | inr bare ↦ inl (other_failure, ground arith)
            | inl agent ↦ inr (g, ground arith)
          ]
        ]
      ]

  -- Either nothing goes out, or a request with all that the relation says is fired.
  forward-fire :
      (req : Request) (claims : UserClaims) (trust_score : ℕ)
      → ((e : ProxyError) × (forward t cfg req claims trust_score ≡ stops t cfg e))
        ⊎ ((service : String) × (out : Outgoing) × (t.breaker service ≢ refuses
              → IsSent req claims trust_score out)
            × (forward t cfg req claims trust_score ≡ fire t cfg service out))
  unfolding forward
  forward-fire req claims trust_score =
      elim (Option-cases (extract_service_name (before_query req.original_url))) [
        | inl absent ↦ inl (not_found "Cannot extract service name from path", ground arith)
        | inr (service, named) ↦ elim (Option-cases (resolve service cfg.service_registry)) [
          | inl unknown ↦ inl (not_found "Unknown service", ground arith)
          | inr (base, registered) ↦ elim (Option-cases (t.parse_url req.original_url)) [
            | inl bad ↦ inl (other_failure, ground arith)
            | inr (parsed, read) ↦
                elim (Option-cases
                  (t.join_url (concat (strip_prefix parsed.0) parsed.1) (with_slash base))) [
                    | inl bad ↦ inl (other_failure, ground arith)
                    | inr (target, targeted) ↦
                        elim (send_to-fire req claims trust_score service target) [
                          | inl (e, stopped) ↦ inl (e, ground arith)
                          | inr (guarded, fired) ↦ inr (
                            service,
                            outgoing req claims trust_score target.0,
                            λ allowed. record {
                              service = service;
                              base = base;
                              parsed = parsed;
                              hostname = target.1;
                              named = named;
                              registered = registered;
                              read = read;
                              targeted = targeted;
                              guarded = guarded;
                              headed = refl;
                              allowed = allowed;
                            },
                            ground arith,
                          )
                        ]
                  ]
          ]
        ]
      ]

  -- What comes back as an answer is the JSON answer, of a status below 500, that the upstream gave
  -- to the request that went out, at one of the `maxRetries` + 1 attempts at most.
  pub forward-IsAnswered :
      (req : Request) (claims : UserClaims) (trust_score : ℕ) {response : AxiosResponse Body}
      → (forward t cfg req claims trust_score).result ≡ proxied response
      → (out : Outgoing) × ((forward t cfg req claims trust_score).sent ≡ some out)
        × IsSent req claims trust_score out
        × IsAnswered out response
  forward-IsAnswered req claims trust_score {response} h =
      elim (forward-fire req claims trust_score) [
        | inl (e, stopped) ↦ absurd (ground arith)
        | inr (service, o, sent, fired) ↦
            let (answer, allowed, went) =
              fire-IsAnswered service o {response = response} (rw fired at h) in
            (o, rw fired went, sent allowed, answer)
      ]
