-- ===== src/Mfa/Pending.antt =====
-- src/mfa/enrollment.store.ts: the pending enrollments, in memory. `now` is `Date.now()`.
use zt_access_gateway.Common.{
  ℕ, ◌+◌, ◌<◌, String, ◌≡◌, refl, ap, ◌⊎◌, inl, inr, Bool, true, false, Option, none, some, List,
  [], ◌∷◌, arith, ◌==◌, eq_iff, leb, if◌then◌else◌, Bool-cases, length,
}
use zt_access_gateway.JsMap.{get, set, delete, get-set, get-delete}

pub record PendingEnrollment : Type 0 where
  pub user_id : String
  pub secret : String
  pub expires_at : ℕ
  pub attempts : ℕ

abbrev pub Pending : Type 0
Pending = List (String × PendingEnrollment)

unfoldable pub set_pending : ℕ → String → String → String → ℕ → Pending → Pending
set_pending ttl_ms id user secret now m =
    set id (record { user_id = user; secret = secret; expires_at = now + ttl_ms; attempts = 0 }) m

-- The entry is the map's own object, so the new count is in the map.
unfoldable pub increment_attempts : String → Pending → ℕ × Pending
increment_attempts id m = elim (get id m) [
  | none ↦ (0, m)
  | some entry ↦ (entry.attempts + 1, set id (record entry { attempts = entry.attempts + 1 }) m)
]

unfoldable pub get_pending : String → ℕ → Pending → Option PendingEnrollment × Pending
get_pending id now m = elim (get id m) [
  | none ↦ (none, m)
  | some entry ↦ if leb entry.expires_at now then (none, delete id m) else (some entry, m)
]

-- Expired entries on the way to the first match are dropped.
unfoldable pub has_pending_for_user : String → ℕ → Pending → Bool × Pending
has_pending_for_user user now [] = (false, [])
has_pending_for_user user now ((id, entry) ∷ m) =
    let rest = has_pending_for_user user now m in
    if leb entry.expires_at now
    then rest
    else if entry.user_id == user
    then (true, (id, entry) ∷ m)
    else (rest.0, (id, entry) ∷ rest.1)

unfoldable pub sweep : ℕ → Pending → Pending
sweep now [] = []
sweep now ((id, entry) ∷ m) =
    let rest = sweep now m in if leb entry.expires_at now then rest else (id, entry) ∷ rest

unfoldable pub size : ℕ → Pending → ℕ × Pending
size now m = (length (sweep now m), sweep now m)

-- The keys of a JavaScript Map are distinct.
abbrev pub IsMap : Pending → Type 0
IsMap [] = Unit
IsMap ((id, entry) ∷ m) = (get id m ≡ none) × IsMap m

-- What the search for a user's enrollment leaves under an id is what was there, or nothing where
-- that has expired.
pub get-has_pending_for_user :
    (user id : String) (now : ℕ) (m : Pending)
    → IsMap m
    → (get id (has_pending_for_user user now m).1 ≡ get id m)
      ⊎ (get id (has_pending_for_user user now m).1 ≡ none)
unfolding has_pending_for_user get
get-has_pending_for_user user id now [] h = inl refl
get-has_pending_for_user user id now ((j, entry) ∷ m) h =
    ground (arith, get-has_pending_for_user user id now m h.1, eq_iff j id, h)

-- A user with an entry that has not expired is found.
pub has_pending_for_user-get :
    (user id : String) (now : ℕ) (m : Pending) {entry : PendingEnrollment}
    → get id m ≡ some entry
    → now < entry.expires_at
    → entry.user_id ≡ user
    → (has_pending_for_user user now m).0 ≡ true
unfolding has_pending_for_user get
has_pending_for_user-get user id now [] h late owner = absurd (ground arith)
has_pending_for_user-get user id now ((j, e) ∷ m) {entry} h late owner =
    elim (Bool-cases (j == id)) [
      | inl here ↦
          let same : e ≡ entry = ground arith in
          ground (
            arith,
            same,
            ap (λ p. p.expires_at) same,
            ap (λ p. p.user_id) same,
            eq_iff e.user_id user,
          )
      | inr there ↦
          ground (
            arith,
            has_pending_for_user-get user id now m {entry = entry} (ground arith) late owner,
          )
    ]

pub IsMap-set : (k : String) (v : PendingEnrollment) (m : Pending) → IsMap m → IsMap (set k v m)
unfolding set get
IsMap-set k v [] h = (refl, tt)
IsMap-set k v ((j, w) ∷ m) h = elim (Bool-cases (j == k)) [
  | inl same ↦ rw same h
  | inr other ↦
      rw other (ground (arith, get-set k j v m, eq_iff k j, eq_iff j k, h), IsMap-set k v m h.1)
]

get-delete-none : (k j : String) (m : Pending) → get j m ≡ none → get j (delete k m) ≡ none
get-delete-none k j m h = rw (get-delete k j m) (ground arith)

pub IsMap-delete : (k : String) (m : Pending) → IsMap m → IsMap (delete k m)
unfolding delete
IsMap-delete k [] h = tt
IsMap-delete k ((j, w) ∷ m) h = elim (Bool-cases (j == k)) [
  | inl same ↦ rw same (IsMap-delete k m h.1)
  | inr other ↦ rw other (get-delete-none k j m h.0, IsMap-delete k m h.1)
]

get-has_pending_for_user-none :
    (user id : String) (now : ℕ) (m : Pending)
    → get id m ≡ none
    → get id (has_pending_for_user user now m).1 ≡ none
unfolding has_pending_for_user get
get-has_pending_for_user-none user id now [] h = refl
get-has_pending_for_user-none user id now ((j, entry) ∷ m) h =
    ground (arith, get-has_pending_for_user-none user id now m)

pub IsMap-has_pending_for_user :
    (user : String) (now : ℕ) (m : Pending) → IsMap m → IsMap (has_pending_for_user user now m).1
unfolding has_pending_for_user
IsMap-has_pending_for_user user now [] h = tt
IsMap-has_pending_for_user user now ((j, entry) ∷ m) h =
    let rest = IsMap-has_pending_for_user user now m h.1 in
    let absent = get-has_pending_for_user-none user j now m h.0 in
    elim (Bool-cases (leb entry.expires_at now)) [
      | inl old ↦ rw old rest
      | inr young ↦ elim (Bool-cases (entry.user_id == user)) [
        | inl mine ↦ rw (young, mine) h
        | inr other ↦ rw (young, other) (absent, rest)
      ]
    ]
