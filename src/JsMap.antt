-- ===== src/JsMap.antt =====
-- A JavaScript `Map<string, V>` as the list of its entries in insertion order: `set` on a present
-- key keeps its place, and a new key goes to the end.
use zt_access_gateway.Common.{
  ◌+◌, ◌≤◌, String, ◌≡◌, refl, true, false, Option, none, some, List, [], ◌∷◌, arith, ◌==◌, eq_iff,
  if◌then◌else◌, length,
}

module _ {ℓ} {V : Type ℓ} where
  unfoldable pub get : String → List (String × V) → Option V
  get k [] = none
  get k ((j, v) ∷ m) = if j == k then some v else get k m

  unfoldable pub set : String → V → List (String × V) → List (String × V)
  set k v [] = (k, v) ∷ []
  set k v ((j, w) ∷ m) = if j == k then (j, v) ∷ m else (j, w) ∷ set k v m

  unfoldable pub delete : String → List (String × V) → List (String × V)
  delete k [] = []
  delete k ((j, v) ∷ m) = let rest = delete k m in if j == k then rest else (j, v) ∷ rest

  pub delete-cons_eq :
      (k j : String) (v : V) (m : List (String × V))
      → (j == k) ≡ true
      → delete k ((j, v) ∷ m) ≡ delete k m
  unfolding delete
  delete-cons_eq k j v m h = rw h

  pub delete-cons_ne :
      (k j : String) (v : V) (m : List (String × V))
      → (j == k) ≡ false
      → delete k ((j, v) ∷ m) ≡ (j, v) ∷ delete k m
  unfolding delete
  delete-cons_ne k j v m h = rw h

  pub get-set :
      (k j : String) (v : V) (m : List (String × V))
      → get j (set k v m) ≡ (if k == j then some v else get j m)
  unfolding get set
  get-set k j v [] = refl
  get-set k j v ((i, w) ∷ m) = ground (arith, eq_iff k j, eq_iff i k, eq_iff i j, get-set k j v m)

  pub get-delete :
      (k j : String) (m : List (String × V))
      → get j (delete k m) ≡ (if k == j then none else get j m)
  unfolding get delete
  get-delete k j [] = ground arith
  get-delete k j ((i, w) ∷ m) = ground (arith, eq_iff k j, eq_iff i k, eq_iff i j, get-delete k j m)

  pub length-set-le :
      (k : String) (v : V) (m : List (String × V)) → length (set k v m) ≤ length m + 1
  unfolding set
  length-set-le k v [] = omega arith
  length-set-le k v ((j, w) ∷ m) = ground (arith, length-set-le k v m)

  pub length-delete-le : (k : String) (m : List (String × V)) → length (delete k m) ≤ length m
  unfolding delete
  length-delete-le k [] = omega arith
  length-delete-le k ((j, w) ∷ m) = ground (arith, length-delete-le k m)

  -- A key that is present goes, so the map shrinks.
  pub length-delete_first :
      (k : String) (v : V) (m : List (String × V)) → length (delete k ((k, v) ∷ m)) ≤ length m
  unfolding delete
  length-delete_first k v m = ground (arith, eq_iff k k, length-delete-le k m)
