-- ===== src/Stores/Nonces/Replay.antt =====
-- src/hashcash/used-nonce-store.ts: the bound on the store, and how long a nonce is remembered.
use zt_access_gateway.Common.{
  ℕ, suc, ◌+◌, ◌-◌, ◌≤◌, ◌<◌, String, ◌≡◌, refl, ◌≢◌, inl, inr, true, none, some, List, [], ◌∷◌,
  arith, ◌==◌, eq_iff, leb, if◌then◌else◌, Bool-cases, length, All,
}
use zt_access_gateway.JsMap.{
  get, set, delete, delete-cons_eq, delete-cons_ne, get-set, get-delete, length-set-le,
  length-delete-le, length-delete_first,
}
use zt_access_gateway.Stores.Nonces.{UsedNonceStore, has, evict_oldest, make_room, add}

-- A call of the store by another request.
pub data Access : Type 0 where
  reads : String → ℕ → Access
  adds : String → ℕ → Access

unfoldable pub access : UsedNonceStore → Access → UsedNonceStore
access s (reads j now) = (has j now s).1
access s (adds j exp) = add j exp s

unfoldable pub access_all : UsedNonceStore → List Access → UsedNonceStore
access_all s [] = s
access_all s (a ∷ rest) = access_all (access s a) rest

abbrev pub count_adds : List Access → ℕ
count_adds [] = 0
count_adds (reads j now ∷ rest) = count_adds rest
count_adds (adds j exp ∷ rest) = suc (count_adds rest)

-- How many entries are older than k; the size where k is absent.
ahead : String → List (String × ℕ) → ℕ
ahead k [] = 0
ahead k ((j, v) ∷ m) = if j == k then 0 else suc (ahead k m)

ahead-delete :
    (k j : String) (m : List (String × ℕ))
    → j ≢ k
    → ahead k m + length (delete j m) ≤ ahead k (delete j m) + length m
unfolding ahead
ahead-delete k j [] d = unfold delete in omega arith
ahead-delete k j ((i, w) ∷ m) d = elim (Bool-cases (i == j)) [
  | inl same ↦
      rw (delete-cons_eq j i w m same)
        (ground (arith, eq_iff i j, eq_iff i k, ahead-delete k j m d))
  | inr other ↦
      rw (delete-cons_ne j i w m other) (ground (arith, ahead-delete k j m d, length-delete-le j m))
]

ahead-set :
    (k j : String) (v exp : ℕ) (m : List (String × ℕ))
    → j ≢ k
    → get k m ≡ some exp
    → ahead k (set j v m) ≡ ahead k m
unfolding ahead set get
ahead-set k j v exp [] d h = cc
ahead-set k j v exp ((i, w) ∷ m) d h =
    ground (arith, eq_iff i j, eq_iff i k, ahead-set k j v exp m d)

ahead-set_new :
    (k : String) (v : ℕ) (m : List (String × ℕ))
    → get k m ≡ none
    → (ahead k (set k v m) ≡ length m) × (length (set k v m) ≡ length m + 1)
unfolding ahead set get
ahead-set_new k v [] h = ground (arith, eq_iff k k)
ahead-set_new k v ((i, w) ∷ m) h = ground (arith, eq_iff i k, ahead-set_new k v m)

-- k is stored, and outlives b more insertions.
abbrev Outlives : String → ℕ → ℕ → UsedNonceStore → Type 0
Outlives k exp b s =
    (get k s.store ≡ some exp)
    × (length s.store ≤ s.capacity)
    × (b + length s.store ≤ ahead k s.store + s.capacity)

length-evict_oldest-le : (m : List (String × ℕ)) → length (evict_oldest m) ≤ length m - 1
unfolding evict_oldest
length-evict_oldest-le [] = omega arith
length-evict_oldest-le ((k, v) ∷ m) = omega (arith, length-delete_first {0} k v m)

-- Evicting spares a nonce that has an older one before it.
evict_oldest-spares :
    (k : String) (exp : ℕ) (m : List (String × ℕ))
    → get k m ≡ some exp
    → 0 < ahead k m
    → (get k (evict_oldest m) ≡ some exp)
      × (ahead k m + length (evict_oldest m) ≤ ahead k (evict_oldest m) + length m)
unfolding evict_oldest
evict_oldest-spares k exp [] h p = (h, omega arith)
evict_oldest-spares k exp ((j, v) ∷ m) h p =
    let d : j ≢ k = λ e. unfold ahead in ground (arith, eq_iff j k) in
    (ground (arith, get-delete j k ((j, v) ∷ m), eq_iff j k), ahead-delete k j ((j, v) ∷ m) d)

make_room-Outlives :
    (k : String) (exp b : ℕ) (s : UsedNonceStore)
    → 0 < s.capacity
    → Outlives k exp (suc b) s
    → (get k (make_room s) ≡ some exp)
      × (length (make_room s) + 1 ≤ s.capacity)
      × (suc b + length (make_room s) ≤ ahead k (make_room s) + s.capacity)
unfolding make_room
make_room-Outlives k exp b s p h =
    ground (arith, evict_oldest-spares k exp s.store h.0, length-evict_oldest-le s.store)

add-Outlives :
    (k j : String) (exp e b : ℕ) (s : UsedNonceStore)
    → j ≢ k
    → 0 < s.capacity
    → Outlives k exp (suc b) s
    → Outlives k exp b (add j e s)
unfolding add
add-Outlives k j exp e b s d p h =
    let room = make_room-Outlives k exp b s p h in
    (
      ground (arith, get-set j k e (make_room s), eq_iff j k),
      omega (arith, room, length-set-le j e (make_room s)),
      omega (
        arith,
        room,
        length-set-le j e (make_room s),
        ahead-set k j e exp (make_room s) d room.0,
      ),
    )

-- An access that is no insertion of k itself, nor a read of k past its expiry.
abbrev pub Spares : String → ℕ → Access → Type 0
Spares k exp (reads j now) = now < exp
Spares k exp (adds j e) = j ≢ k

has-Outlives :
    (k j : String) (exp now b : ℕ) (s : UsedNonceStore)
    → now < exp
    → Outlives k exp b s
    → Outlives k exp b (has j now s).1
unfolding has
has-Outlives k j exp now b s early h = elim (Bool-cases (j == k)) [
  | inl same ↦ ground (arith, eq_iff j k)
  | inr other ↦
      let d : j ≢ k = λ e. ground (arith, eq_iff j k) in
      ground (arith, get-delete j k s.store, length-delete-le j s.store, ahead-delete k j s.store d)
]

access_all-get :
    (k : String) (exp : ℕ) (calls : List Access) (s : UsedNonceStore)
    → 0 < s.capacity
    → Outlives k exp (count_adds calls) s
    → All (Spares k exp) calls
    → get k (access_all s calls).store ≡ some exp
unfolding access_all access
access_all-get k exp [] s p h ok = h.0
access_all-get k exp (reads j now ∷ rest) s p h ok =
    access_all-get k exp rest (has j now s).1 (unfold has in ground arith)
      (has-Outlives k j exp now (count_adds rest) s ok.0 h) ok.1
access_all-get k exp (adds j e ∷ rest) s p h ok =
    access_all-get k exp rest (add j e s) (unfold add in p)
      (add-Outlives k j exp e (count_adds rest) s ok.0 p h) ok.1

-- The store holds at most its capacity, where that is not zero.
abbrev pub IsBounded : UsedNonceStore → Type 0
IsBounded s = (0 < s.capacity) × (length s.store ≤ s.capacity)

length-make_room : (s : UsedNonceStore) → IsBounded s → length (make_room s) + 1 ≤ s.capacity
unfolding make_room
length-make_room s h = ground (arith, length-evict_oldest-le s.store)

-- Every call keeps the number of entries within the capacity, and keeps the capacity.
pub access-IsBounded :
    (s : UsedNonceStore) (call : Access)
    → IsBounded s
    → IsBounded (access s call) × ((access s call).capacity ≡ s.capacity)
unfolding access has add
access-IsBounded s (reads j now) h = ground (arith, length-delete-le j s.store)
access-IsBounded s (adds j e) h =
    ((h.0, omega (arith, length-set-le j e (make_room s), length-make_room s h)), refl)

get-make_room-none :
    (k : String) (s : UsedNonceStore) → get k s.store ≡ none → get k (make_room s) ≡ none
unfolding make_room evict_oldest
get-make_room-none k s h = go s.store h
  where
    go :
        (m : List (String × ℕ))
        → get k m ≡ none
        → get k (if leb s.capacity (length m) then evict_oldest m else m) ≡ none
    go [] e = ground arith
    go ((j, v) ∷ m) e = ground (arith, get-delete j k ((j, v) ∷ m))

add-Outlives_new :
    (k : String) (exp : ℕ) (s : UsedNonceStore)
    → IsBounded s
    → get k s.store ≡ none
    → Outlives k exp (s.capacity - 1) (add k exp s)
unfolding add
add-Outlives_new k exp s h new =
    let (place, grown) = ahead-set_new k exp (make_room s) (get-make_room-none k s new) in
    (
      ground (arith, get-set k k exp (make_room s), eq_iff k k),
      omega (arith, grown, length-make_room s h),
      omega (arith, grown, place, h),
    )

Outlives-weaken :
    (k : String) (exp a b : ℕ) (s : UsedNonceStore)
    → a ≤ b
    → Outlives k exp b s
    → Outlives k exp a s
Outlives-weaken k exp a b s le h = (h.0, h.1, omega (arith, h))

-- A nonce that is new to a bounded store and is added with expiry `exp` is reported as used at
-- every time before `exp`, whatever other requests do in between, as long as they add fewer
-- nonces than the capacity, do not add it themselves, and read the store before `exp`.
pub add-has_replay :
    (k : String) (exp now : ℕ) (s : UsedNonceStore) (calls : List Access)
    → IsBounded s
    → get k s.store ≡ none
    → All (Spares k exp) calls
    → count_adds calls < s.capacity
    → now < exp
    → (has k now (access_all (add k exp s) calls)).0 ≡ true
unfolding has
add-has_replay k exp now s calls bounded new ok few early =
    let fresh =
      Outlives-weaken k exp (count_adds calls) (s.capacity - 1) (add k exp s) (omega arith)
        (add-Outlives_new k exp s bounded new) in
    let kept = access_all-get k exp calls (add k exp s) (unfold add in bounded.0) fresh ok in
    rw (kept, has) (ground arith)
