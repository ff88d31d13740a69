-- ===== src/Mfa/Controller/Admin.antt =====
-- src/mfa/mfa.controller.ts: who may reset an enrollment.
use zt_access_gateway.Common.{
  ℕ, String, ◌≡◌, refl, ap, ◌⊎◌, inl, inr, true, false, Option, none, some, [], ◌∷◌, arith,
  Bool-cases, Option-cases,
}
use zt_access_gateway.Request.{UserClaims, Request, header, extract_ip, extract_ja4h, contains}
use zt_access_gateway.JsMap.{delete}
use zt_access_gateway.Gateway.{AuthInvalidReason, AuthOutcome, ok, invalid}
use zt_access_gateway.Auth.{Jose, AuthConfig, authenticate}
use zt_access_gateway.Auth.Authentic.{IsAuthentic, authenticate-IsAuthentic}
use zt_access_gateway.Auth.Routes.{jwt_auth_guard, roles_guard, lets_in, turns_away}
use zt_access_gateway.Mfa.Enrollment.{
  EnrollCrypto, EnrollConfig, EnrollEnv, EnrollState, delete_enrollment,
}
use zt_access_gateway.Mfa.Controller.{HttpReply, admin_delete_enrollment, admin_delete_route}

-- The gateway has put an admin's claims on the request.
pub record HasAdmin (req : Request) : Type 0 where
  pub claims : UserClaims
  pub held : req.user ≡ some claims
  pub role : contains "admin" claims.roles ≡ true

-- The request carries a valid access token.
pub record HasToken (jose : Jose) (cfg : AuthConfig) (req : Request) : Type 0 where
  pub raw : String
  pub claims : UserClaims
  pub carried : header "authorization" req ≡ some raw
  pub authentic : IsAuthentic jose cfg raw claims

abbrev pub IsVouched : Jose → AuthConfig → Request → Type 0
IsVouched jose cfg req = (req.gateway_validated ≡ true) ⊎ HasToken jose cfg req

AuthOutcome-cases :
    (o : AuthOutcome)
    → ((claims : UserClaims) × (o ≡ ok claims))
      ⊎ ((reason : AuthInvalidReason) × (message : Option String) × (o ≡ invalid reason message))
AuthOutcome-cases (ok claims) = inl (claims, refl)
AuthOutcome-cases (invalid reason message) = inr (reason, message, refl)

-- The guard lets in only a request that the gateway has branded or that carries a valid token.
jwt_auth_guard-IsVouched :
    (jose : Jose) (cfg : AuthConfig) (req : Request)
    → (IsVouched jose cfg req
        × (req' : Request) × (jwt_auth_guard jose cfg false req ≡ lets_in req'))
      ⊎ ((req.gateway_validated ≡ false)
          × (message : Option String) × (jwt_auth_guard jose cfg false req
              ≡ turns_away message (extract_ip req) (extract_ja4h req)))
unfolding jwt_auth_guard
jwt_auth_guard-IsVouched jose cfg req = elim (Bool-cases req.gateway_validated) [
  | inl branded ↦ inl (inl branded, req, ground arith)
  | inr bare ↦ elim (Option-cases (header "authorization" req)) [
    | inl absent ↦ inr (bare, none, unfold authenticate in ground arith)
    | inr (raw, carried) ↦ elim (AuthOutcome-cases (authenticate jose cfg (some raw))) [
      | inl (claims, good) ↦ inl (
        inr (record {
          raw = raw;
          claims = claims;
          carried = carried;
          authentic = authenticate-IsAuthentic jose cfg raw good;
        }),
        record req { user = some claims; gateway_validated = true },
        ground arith,
      )
      | inr (reason, message, bad) ↦ inr (bare, message, ground arith)
    ]
  ]
]

-- What the handler answers, and what it does to the secrets.
abbrev pub Resets : String → EnrollState → HttpReply × EnrollState → Type 0
Resets user_id st r =
    ((r.0.status ≡ 200) × (r.1.secrets ≡ delete user_id st.secrets))
    ⊎ ((r.0.status ≡ 500) × (r.1.secrets ≡ st.secrets))

abbrev pub Refuses : ℕ → EnrollState → HttpReply × EnrollState → Type 0
Refuses status st r = (r.0.status ≡ status) × (r.1 ≡ st)

admin_delete_enrollment-Resets :
    (crypto : EnrollCrypto) (cfg : EnrollConfig) (env : EnrollEnv) (user_id : String)
    (st : EnrollState)
    → Resets user_id st (admin_delete_enrollment crypto cfg env user_id st)
unfolding admin_delete_enrollment delete_enrollment
admin_delete_enrollment-Resets crypto cfg env user_id st = elim (Bool-cases (env.up 0)) [
  | inl up ↦ inl (ground arith, ground arith)
  | inr down ↦ inr (ground arith, ground arith)
]

roles_guard-HasAdmin :
    (req : Request)
    → (HasAdmin req × (roles_guard ("admin" ∷ []) req.user ≡ true))
      ⊎ ((HasAdmin req → ⊥) × (roles_guard ("admin" ∷ []) req.user ≡ false))
unfolding roles_guard
roles_guard-HasAdmin req = elim (Option-cases req.user) [
  | inl absent ↦ inr (λ a. ground (arith, a.held), ground arith)
  | inr (claims, held) ↦ elim (Bool-cases (contains "admin" claims.roles)) [
    | inl admin ↦ inl (record { claims = claims; held = held; role = admin }, ground arith)
    | inr plain ↦ inr (
      λ a.
          let same : a.claims ≡ claims = ground (arith, a.held) in
          ground (arith, a.role, ap (λ (c : UserClaims). contains "admin" c.roles) same),
      ground arith,
    )
  ]
]

-- A request reaches the reset of an enrollment only where the gateway has put an admin's claims on
-- it, and has branded it or it carries a valid access token; then the named user's secret and no
-- other is deleted, or the answer is 500 and none is. Else nothing changes: a request without an
-- admin's claims is answered 403, whatever token it carries, and one with them that is not branded
-- 401.
pub admin_delete_route-IsAdmin :
    (crypto : EnrollCrypto) (cfg : EnrollConfig) (env : EnrollEnv) (jose : Jose)
    (auth_cfg : AuthConfig) (req : Request) (user_id : String) (st : EnrollState)
    → let r = admin_delete_route crypto cfg env jose auth_cfg req user_id st in
      (HasAdmin req × IsVouched jose auth_cfg req × Resets user_id st r)
      ⊎ ((HasAdmin req → ⊥) × Refuses 403 st r)
      ⊎ (HasAdmin req × (req.gateway_validated ≡ false) × Refuses 401 st r)
unfolding admin_delete_route
admin_delete_route-IsAdmin crypto cfg env jose auth_cfg req user_id st =
    elim (roles_guard-HasAdmin req) [
      | inr (never, out) ↦ rw (admin_delete_route, out) (inr (inl (never, (refl, refl))))
      | inl (admin, inside) ↦ elim (jwt_auth_guard-IsVouched jose auth_cfg req) [
        | inl (vouched, req', e) ↦
            rw (admin_delete_route, inside, e)
              (inl (admin, vouched, admin_delete_enrollment-Resets crypto cfg env user_id st))
        | inr (bare, message, e) ↦
            rw (admin_delete_route, inside, e) (inr (inr (admin, bare, (refl, refl))))
      ]
    ]
