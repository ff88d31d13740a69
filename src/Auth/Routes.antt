-- ===== src/Auth/Routes.antt =====
-- src/auth/jwt-auth.guard.ts, roles.guard.ts and auth.controller.ts. A body's `exp` is a natural
-- number of seconds.
use zt_access_gateway.Common.{
  ℕ, ◌*◌, ◌<◌, String, ◌≡◌, refl, ap, ◌≢◌, ◌⊎◌, inl, inr, Bool, true, false, not, ◌||◌, Option,
  none, some, List, [], ◌∷◌, arith, ◌==◌, eq_iff, ltb, leb, if◌then◌else◌, Bool-cases, Option-cases,
}
use zt_access_gateway.Request.{UserClaims, Request, header, extract_ip, extract_ja4h, contains}
use zt_access_gateway.JsMap.{get}
use zt_access_gateway.Stores.Revocation.{RevocationEntry, Blacklist, revoke, is_revoked, get_entry}
use zt_access_gateway.Stores.Revocation.Expiry.{call_all, revoke-is_revoked}
use zt_access_gateway.Gateway.{ok, invalid}
use zt_access_gateway.Auth.{Jose, AuthConfig, authenticate}

-- The guard lets a request in, or emits AUTH_INVALID_TOKEN with the address and the fingerprint,
-- and throws an UnauthorizedException with the message.
pub data Guarded : Type 0 where
  lets_in : Request → Guarded
  turns_away : Option String → String → Option String → Guarded

unfoldable pub jwt_auth_guard : Jose → AuthConfig → Bool → Request → Guarded
jwt_auth_guard jose cfg is_public req =
    if is_public
    then lets_in req
    else if req.gateway_validated
    then lets_in req
    else elim (authenticate jose cfg (header "authorization" req)) [
      | ok claims ↦ lets_in (record req { user = some claims; gateway_validated = true })
      | invalid reason message ↦ turns_away message (extract_ip req) (extract_ja4h req)
    ]

abbrev pub shares : List String → List String → Bool
shares [] held = false
shares (r ∷ required) held = contains r held || shares required held

-- No `@Roles()` and an empty list of roles restrict nothing.
unfoldable pub roles_guard : List String → Option UserClaims → Bool
roles_guard [] user = true
roles_guard (r ∷ required) none = false
roles_guard (r ∷ required) (some user) = shares (r ∷ required) user.roles

pub data RevokeAnswer : Type 0 where
  -- 200, and AUTH_TOKEN_REVOKED is emitted.
  revoked_token missing_user not_the_owner : RevokeAnswer

unfoldable pub revoke_route :
    Option UserClaims → String → ℕ → ℕ → Blacklist → RevokeAnswer × Blacklist
unfolding revoke get_entry
revoke_route none jti exp now m = (missing_user, m)
revoke_route (some user) jti exp now m =
    let expires_at_ms = exp * 1000 in
    if contains "admin" user.roles
    then (revoked_token, revoke jti expires_at_ms user.user_id m)
    else let (existing, m1) = get_entry jti now m in
      elim existing [
        | none ↦ (revoked_token, revoke jti expires_at_ms user.user_id m1)
        | some entry ↦
            if not (entry.user_id == user.user_id)
            then (not_the_owner, m1)
            else (revoked_token, revoke jti expires_at_ms user.user_id m1)
      ]

-- The id is in the list, unexpired, under another user.
pub record IsOthers (user jti : String) (now : ℕ) (m : Blacklist) : Type 0 where
  pub entry : RevocationEntry
  pub listed : get jti m ≡ some entry
  pub unexpired : now < entry.expires_at
  pub foreign : entry.user_id ≢ user

revoke_then :
    (jti user : String) (e : ℕ) (m : Blacklist) (later : ℕ)
    → (is_revoked jti later (revoke jti e user m)).0 ≡ ltb later e
unfolding call_all
revoke_then jti user e m later = (revoke-is_revoked jti user e later m [] tt).0

-- The branch of a user who is no admin, by what `getEntry` finds.
revoke_route-found :
    (user : UserClaims) (jti : String) (exp now : ℕ) (m : Blacklist)
    → contains "admin" user.roles ≡ false
    → (revoke_route (some user) jti exp now m
          ≡ (revoked_token, revoke jti (exp * 1000) user.user_id (get_entry jti now m).1))
        × (IsOthers user.user_id jti now m → ⊥)
      ⊎ ((revoke_route (some user) jti exp now m ≡ (not_the_owner, m))
          × IsOthers user.user_id jti now m)
unfolding revoke_route get_entry
revoke_route-found user jti exp now m plain = elim (Option-cases (get jti m)) [
  | inl absent ↦ inl (ground arith, λ o. absurd (ground (arith, o.listed)))
  | inr (entry, listed) ↦ elim (Bool-cases (leb entry.expires_at now)) [
    | inl old ↦ inl (
      ground arith,
      λ o. absurd (
          let e = listed_same entry o listed in
          ground (arith, o.unexpired, ap (λ x. x.expires_at) e)),
    )
    | inr young ↦ elim (Bool-cases (entry.user_id == user.user_id)) [
      | inl mine ↦ inl (
        ground arith,
        λ o. absurd (
            let e = listed_same entry o listed in
            ground (arith, o.foreign, ap (λ x. x.user_id) e, eq_iff entry.user_id user.user_id)),
      )
      | inr other ↦ inr (
        ground arith,
        record {
          entry = entry;
          listed = listed;
          unexpired = ground arith;
          foreign = ground (arith, eq_iff entry.user_id user.user_id);
        },
      )
    ]
  ]
]
  where
    listed_same :
        (entry : RevocationEntry) (o : IsOthers user.user_id jti now m)
        → get jti m ≡ some entry
        → entry ≡ o.entry
    listed_same entry o listed = ground (arith, o.listed)

-- A user's request to revoke is refused exactly where the user is no admin and the id is already
-- revoked under another user, and then nothing changes. In every other case it is granted,
-- whoever's token it is, and from then on the id counts as revoked until the given expiry.
pub revoke_route-outcome :
    (user : UserClaims) (jti : String) (exp now : ℕ) (m : Blacklist)
    → let r = revoke_route (some user) jti exp now m in
      ((r.0 ≡ revoked_token)
        × ((later : ℕ) → (is_revoked jti later r.1).0 ≡ ltb later (exp * 1000))
        × ((contains "admin" user.roles ≡ true) ⊎ (IsOthers user.user_id jti now m → ⊥)))
      ⊎ ((r.0 ≡ not_the_owner)
          × (contains "admin" user.roles ≡ false)
          × IsOthers user.user_id jti now m
          × (r.1 ≡ m))
revoke_route-outcome user jti exp now m = elim (Bool-cases (contains "admin" user.roles)) [
  | inl admin ↦
      let e : revoke_route (some user) jti exp now m
          ≡ (revoked_token, revoke jti (exp * 1000) user.user_id m) =
        unfold revoke_route in ground arith in
      rw e (inl (refl, revoke_then jti user.user_id (exp * 1000) m, inl admin))
  | inr plain ↦ elim (revoke_route-found user jti exp now m plain) [
    | inl (e, free) ↦
        rw e
          (inl (refl, revoke_then jti user.user_id (exp * 1000) (get_entry jti now m).1, inr free))
    | inr (e, others) ↦ rw e (inr (refl, plain, others, refl))
  ]
]
