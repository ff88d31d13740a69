-- ===== src/Request/Paths.antt =====
-- src/gateway/public-paths.ts and src/honeypot/honeypot.constants.ts.
use zt_access_gateway.Common.{
  String, ◌≡◌, refl, subst, inl, inr, true, false, List, [], ◌∷◌, arith, ◌==◌, eq_iff, Bool-cases,
}
use zt_access_gateway.Request.{public_paths, honeypot_paths, contains, is_auth_only_path}

data Listed (p : String) : List String → Type 0 where
  first : {x : String} {xs : List String} → x ≡ p → Listed p (x ∷ xs)
  later : {x : String} {xs : List String} → Listed p xs → Listed p (x ∷ xs)

contains-Listed : (p : String) (xs : List String) → contains p xs ≡ true → Listed p xs
unfolding contains
contains-Listed p [] h = cc
contains-Listed p (x ∷ xs) h = elim (Bool-cases (x == p)) [
  | inl same ↦ first ((eq_iff x p).0 same)
  | inr other ↦ later (contains-Listed p xs (ground arith))
]

abbrev Apart : String → Type 0
Apart p = (contains p public_paths ≡ false) × (is_auth_only_path p ≡ false)

Listed-Apart : {p : String} → Listed p honeypot_paths → Apart p
unfolding contains is_auth_only_path
Listed-Apart (first e) = subst Apart e (refl, refl)
Listed-Apart (later (first e)) = subst Apart e (refl, refl)
Listed-Apart (later (later (first e))) = subst Apart e (refl, refl)
Listed-Apart (later (later (later (first e)))) = subst Apart e (refl, refl)
Listed-Apart (later (later (later (later (first e))))) = subst Apart e (refl, refl)
Listed-Apart (later (later (later (later (later (first e)))))) = subst Apart e (refl, refl)
Listed-Apart (later (later (later (later (later (later (first e))))))) = subst Apart e (refl, refl)
Listed-Apart (later (later (later (later (later (later (later h))))))) = elim h [ ]

-- The lists of paths are apart: a honeypot path is neither public nor authentication-only.
pub honeypot_apart :
    (p : String)
    → contains p honeypot_paths ≡ true
    → (contains p public_paths ≡ false) × (is_auth_only_path p ≡ false)
honeypot_apart p h = Listed-Apart (contains-Listed p honeypot_paths h)
