-- ===== src/Proxy/Headers.antt =====
-- src/proxy/proxy.service.ts (`buildProxyHeaders`). Node hands the names over in lower case, so
-- `toLowerCase` changes nothing; each header is one text. A number's text is a parameter.
use zt_access_gateway.Common.{
  ℕ, String, ◌≡◌, refl, ap, inl, inr, Bool, ◌||◌, Option, none, some, List, [], ◌∷◌, arith, ◌==◌,
  eq_iff, concat, if◌then◌else◌, Bool-cases,
}
use zt_access_gateway.Request.{UserClaims, contains, starts_with}
use zt_access_gateway.JsMap.{get, set, get-set}

abbrev pub strip_headers : List String
strip_headers = "authorization" ∷ "cookie" ∷ "x-forwarded-for" ∷ "host" ∷ "content-length" ∷ []

unfoldable pub is_stripped : String → Bool
is_stripped k = contains k strip_headers || starts_with "x-gateway-" k

unfoldable pub join_comma : List String → String
join_comma [] = ""
join_comma (r ∷ []) = r
join_comma (r ∷ s ∷ rest) = concat r (concat "," (join_comma (s ∷ rest)))

-- The loop over the incoming headers.
unfoldable pub copy_headers :
    List (String × String) → List (String × String) → List (String × String)
unfolding set
copy_headers [] out = out
copy_headers ((k, v) ∷ incoming) out =
    copy_headers incoming (if is_stripped k then out else set k v out)

unfoldable pub build_proxy_headers :
    (ℕ → String) → List (String × String) → UserClaims → ℕ → Option String → List (String × String)
build_proxy_headers show incoming claims trust_score ja4h =
    let out = set "x-gateway-request" "true" (
      set "x-trust-score" (show trust_score) (
        set "x-roles" (join_comma claims.roles)
          (set "x-user-id" claims.user_id (copy_headers incoming [])))) in
    elim ja4h [ none ↦ out | some fp ↦ set "x-ja4h" fp out ]

-- The headers that the gateway writes itself.
unfoldable pub injected : (ℕ → String) → UserClaims → ℕ → Option String → String → Option String
injected show claims trust_score ja4h k =
    let own : Option String =
      if "x-gateway-request" == k
      then some "true"
      else if "x-trust-score" == k
      then some (show trust_score)
      else if "x-roles" == k
      then some (join_comma claims.roles)
      else if "x-user-id" == k
      then some claims.user_id
      else none in
    elim ja4h [ none ↦ own | some fp ↦ if "x-ja4h" == k then some fp else own ]

-- The last value of a name, as the loop leaves it.
unfoldable pub last_value : String → List (String × String) → Option String → Option String
last_value k [] found = found
last_value k ((j, v) ∷ incoming) found = last_value k incoming (if j == k then some v else found)

copied-get :
    (k j v : String) (out : List (String × String))
    → get k (if is_stripped j then out else set j v out)
      ≡ (if is_stripped k then get k out else if j == k then some v else get k out)
copied-get k j v out = elim (Bool-cases (j == k)) [
  | inl same ↦
      let e : j ≡ k = ground (arith, eq_iff j k) in
      ground (arith, get-set j k v out, ap is_stripped e)
  | inr other ↦ ground (arith, get-set j k v out)
]

copy_headers-get :
    (k : String) (incoming out : List (String × String))
    → get k (copy_headers incoming out)
      ≡ (if is_stripped k then get k out else last_value k incoming (get k out))
unfolding copy_headers last_value
copy_headers-get k [] out = ground arith
copy_headers-get k ((j, v) ∷ incoming) out =
    rw
      (
        copy_headers-get k incoming (if is_stripped j then out else set j v out),
        copied-get k j v out,
      )
      (ground arith)

abbrev scored : (ℕ → String) → List (String × String) → UserClaims → ℕ → List (String × String)
scored show incoming claims trust_score = set "x-trust-score" (show trust_score) (
    set "x-roles" (join_comma claims.roles)
      (set "x-user-id" claims.user_id (copy_headers incoming [])))

scored-get :
    (show : ℕ → String) (incoming : List (String × String)) (claims : UserClaims) (trust_score : ℕ)
    (k : String)
    → get k (scored show incoming claims trust_score) ≡ (
        if "x-trust-score" == k
        then some (show trust_score)
        else if "x-roles" == k
        then some (join_comma claims.roles)
        else if "x-user-id" == k
        then some claims.user_id
        else if is_stripped k
        then none
        else last_value k incoming none)
unfolding get
scored-get show incoming claims trust_score k =
    let copied = copy_headers incoming [] in
    let with_user = set "x-user-id" claims.user_id copied in
    rw
      (
        get-set "x-trust-score" k (show trust_score)
            (set "x-roles" (join_comma claims.roles) with_user),
        get-set "x-roles" k (join_comma claims.roles) with_user,
        get-set "x-user-id" k claims.user_id copied,
        copy_headers-get k incoming [],
      )
      refl

-- What the upstream gets under a name: the gateway's own value where it writes one; else nothing
-- for a name that is stripped (credentials, cookies, the client's x-forwarded-for, host and
-- content-length, and every other x-gateway- name); else the client's last value.
pub build_proxy_headers-get :
    (show : ℕ → String) (incoming : List (String × String)) (claims : UserClaims) (trust_score : ℕ)
    (ja4h : Option String) (k : String)
    → get k (build_proxy_headers show incoming claims trust_score ja4h)
      ≡ elim (injected show claims trust_score ja4h k) [
        | some own ↦ some own
        | none ↦ if is_stripped k then none else last_value k incoming none
      ]
unfolding build_proxy_headers injected
build_proxy_headers-get show incoming claims trust_score none k =
    rw
      (
        get-set "x-gateway-request" k "true" (scored show incoming claims trust_score),
        scored-get show incoming claims trust_score k,
      )
      (ground arith)
build_proxy_headers-get show incoming claims trust_score (some fp) k =
    rw
      (
        get-set "x-ja4h" k fp
            (set "x-gateway-request" "true" (scored show incoming claims trust_score)),
        get-set "x-gateway-request" k "true" (scored show incoming claims trust_score),
        scored-get show incoming claims trust_score k,
      )
      (ground arith)
