-- ===== src/Proxy/Allowed.antt =====
-- src/proxy/bopla.interceptor.ts: what is left of an answer after the filter.
use zt_access_gateway.Common.{
  String, ◌≡◌, refl, subst, ◌⊎◌, inl, inr, Bool, true, false, none, some, List, [], ◌∷◌, ◌==◌,
  Bool-cases, Option-cases,
}
use zt_access_gateway.Request.{contains}
use zt_access_gateway.Proxy.{
  Json, Items, Fields, FieldPolicy, get_field, put_field, select, apply_allow_list, apply_items,
  apply_fields, find_allowed_fields, passes_through, strip, null, bool_of, number_of, text_of,
  opaque, array, object, no_items, item, no_fields, entry,
}

-- The text is one of the list.
abbrev pub Listed : String → List String → Type 0
Listed k [] = ⊥
Listed k (x ∷ xs) = (x ≡ k) ⊎ Listed k xs

-- At every depth, all keys of objects are allowed.
mutual
  pub AllKeys : List String → Json → Type 0
  AllKeys allowed null = Unit
  AllKeys allowed (bool_of b) = Unit
  AllKeys allowed (number_of n) = Unit
  AllKeys allowed (text_of s) = Unit
  AllKeys allowed (opaque s) = Unit
  AllKeys allowed (array items) = AllItems allowed items
  AllKeys allowed (object content) = AllFields allowed content

  pub AllItems : List String → Items → Type 0
  AllItems allowed no_items = Unit
  AllItems allowed (item v rest) = AllKeys allowed v × AllItems allowed rest

  pub AllFields : List String → Fields → Type 0
  AllFields allowed no_fields = Unit
  AllFields allowed (entry k v rest) = Listed k allowed × AllKeys allowed v × AllFields allowed rest

-- The values of the fields are filtered already, whatever the keys.
abbrev AllValues : List String → Fields → Type 0
AllValues allowed no_fields = Unit
AllValues allowed (entry k v rest) = AllKeys allowed v × AllValues allowed rest

get_field-AllKeys :
    (allowed : List String) (k : String) (source : Fields) {v : Json}
    → AllValues allowed source
    → get_field k source ≡ some v
    → AllKeys allowed v
unfolding get_field
get_field-AllKeys allowed k no_fields h e = cc
get_field-AllKeys allowed k (entry j w rest) h e = elim (Bool-cases (j == k)) [
  | inl here ↦ let same : w ≡ _ = some_inj (rw here at e) in subst (AllKeys allowed) same h.0
  | inr there ↦ get_field-AllKeys allowed k rest h.1 (rw there at e)
]
  where
    some_inj : {a b : Json} → some a ≡ some b → a ≡ b
    some_inj p = cc

put_field-AllFields :
    (allowed : List String) (k : String) (v : Json) (out : Fields)
    → Listed k allowed
    → AllKeys allowed v
    → AllFields allowed out
    → AllFields allowed (put_field k v out)
unfolding put_field AllKeys
put_field-AllFields allowed k v no_fields l a h = (l, a, tt)
put_field-AllFields allowed k v (entry j w rest) l a h = elim (Bool-cases (j == k)) [
  | inl here ↦ rw here (h.0, a, h.2)
  | inr there ↦ rw there (h.0, h.1, put_field-AllFields allowed k v rest l a h.2)
]

select-AllFields :
    (allowed names : List String) (source out : Fields)
    → ((k : String) → Listed k names → Listed k allowed)
    → AllValues allowed source
    → AllFields allowed out
    → AllFields allowed (select names source out)
unfolding select
select-AllFields allowed [] source out sub h ok = ok
select-AllFields allowed (name ∷ names) source out sub h ok =
    let sub' : (k : String) → Listed k names → Listed k allowed = λ k l. sub k (inr l) in
    elim (Option-cases (get_field name source)) [
      | inl absent ↦ rw (absent, select) (select-AllFields allowed names source out sub' h ok)
      | inr (v, found) ↦
          rw (found, select)
            (select-AllFields allowed names source (put_field name v out) sub' h (
              put_field-AllFields allowed name v out (sub name (inl refl))
                (get_field-AllKeys allowed name source h found) ok))
    ]

mutual
  unfolding apply_allow_list AllKeys

  pub apply_allow_list-AllKeys :
      (allowed : List String) (v : Json) → AllKeys allowed (apply_allow_list allowed v)
  apply_allow_list-AllKeys allowed null = tt
  apply_allow_list-AllKeys allowed (bool_of b) = tt
  apply_allow_list-AllKeys allowed (number_of n) = tt
  apply_allow_list-AllKeys allowed (text_of s) = tt
  apply_allow_list-AllKeys allowed (opaque s) = tt
  apply_allow_list-AllKeys allowed (array items) = apply_items-AllItems allowed items
  apply_allow_list-AllKeys allowed (object content) =
      select-AllFields allowed allowed (apply_fields allowed content) no_fields (λ k l. l)
        (apply_fields-AllValues allowed content) tt

  apply_items-AllItems :
      (allowed : List String) (items : Items) → AllItems allowed (apply_items allowed items)
  apply_items-AllItems allowed no_items = tt
  apply_items-AllItems allowed (item v rest) =
      (apply_allow_list-AllKeys allowed v, apply_items-AllItems allowed rest)

  apply_fields-AllValues :
      (allowed : List String) (content : Fields) → AllValues allowed (apply_fields allowed content)
  apply_fields-AllValues allowed no_fields = tt
  apply_fields-AllValues allowed (entry k v rest) =
      (apply_allow_list-AllKeys allowed v, apply_fields-AllValues allowed rest)

-- Without the role `admin`, an answer is handed on whole only if the first pattern that matches
-- the path gives the wildcard to the first of the roles that it knows; without such a pattern or
-- role it is the empty object; else no object in it, at any depth, has a key outside the list of
-- that role.
pub strip-AllKeys :
    (is_match : String → String → Bool) (policy : FieldPolicy) (v : Json) (path : String)
    (roles : List String)
    → contains "admin" roles ≡ false
    → ((find_allowed_fields is_match policy path roles ≡ none)
        × (strip is_match policy (some v) path roles ≡ some (object no_fields)))
      ⊎ ((allowed : List String) × (find_allowed_fields is_match policy path roles ≡ some allowed)
          × (((passes_through allowed ≡ true)
                × (strip is_match policy (some v) path roles ≡ some v))
              ⊎ ((out : Json) × (strip is_match policy (some v) path roles ≡ some out)
                  × AllKeys allowed out)))
unfolding strip
strip-AllKeys is_match policy v path roles other =
    elim (Option-cases (find_allowed_fields is_match policy path roles)) [
      | inl closed ↦ inl (closed, rw (strip, other, closed) refl)
      | inr (allowed, found) ↦ elim (Bool-cases (passes_through allowed)) [
        | inl whole ↦ inr (allowed, found, inl (whole, rw (strip, other, found, whole) refl))
        | inr part ↦ inr (
          allowed,
          found,
          inr (
            apply_allow_list allowed v,
            rw (strip, other, found, part) refl,
            apply_allow_list-AllKeys allowed v,
          ),
        )
      ]
    ]
