-- ===== src/Proxy/Kept.antt =====
-- src/proxy/bopla.interceptor.ts: the filter keeps every allowed field of an object.
use zt_access_gateway.Common.{
  String, ◌≡◌, refl, inl, inr, Bool, true, false, Option, none, some, List, [], ◌∷◌, arith, ◌==◌,
  eq_iff, if◌then◌else◌, Option-cases,
}
use zt_access_gateway.Request.{contains}
use zt_access_gateway.Proxy.{
  Json, Fields, get_field, put_field, select, apply_allow_list, apply_fields, object, no_fields,
  entry,
}

get_field-put_field :
    (j k : String) (v : Json) (out : Fields)
    → get_field j (put_field k v out) ≡ (if k == j then some v else get_field j out)
unfolding get_field put_field
get_field-put_field j k v no_fields = refl
get_field-put_field j k v (entry i w rest) =
    ground (arith, eq_iff k j, eq_iff i k, eq_iff i j, get_field-put_field j k v rest)

-- What the selection leaves under a key.
abbrev chosen : Bool → Option Json → Option Json → Option Json
chosen false new old = old
chosen true none old = old
chosen true (some v) old = some v

chosen-none : (b : Bool) (o : Option Json) → chosen b o none ≡ (if b then o else none)
chosen-none false o = refl
chosen-none true none = refl
chosen-none true (some v) = refl

get_field-select :
    (k : String) (names : List String) (source out : Fields)
    → get_field k (select names source out)
      ≡ chosen (contains k names) (get_field k source) (get_field k out)
unfolding select contains
get_field-select k [] source out = refl
get_field-select k (name ∷ names) source out = elim (Option-cases (get_field name source)) [
  | inl absent ↦
      rw (absent, select, get_field-select k names source out)
        (ground (arith, eq_iff name k, absent))
  | inr (v, found) ↦
      rw
        (
          found,
          select,
          get_field-select k names source (put_field name v out),
          get_field-put_field k name v out,
        )
        (ground (arith, eq_iff name k, found))
]

get_field-apply_fields :
    (k : String) (allowed : List String) (content : Fields)
    → get_field k (apply_fields allowed content)
      ≡ elim (get_field k content) [ none ↦ none | some v ↦ some (apply_allow_list allowed v) ]
unfolding get_field apply_fields
get_field-apply_fields k allowed no_fields = refl
get_field-apply_fields k allowed (entry j v rest) =
    ground (arith, get_field-apply_fields k allowed rest)

-- A field of an object is there after the filter exactly if it is allowed and was there before,
-- with its value filtered in the same way.
pub apply_allow_list-get_field :
    (k : String) (allowed : List String) (content : Fields)
    → (out : Fields) × (apply_allow_list allowed (object content) ≡ object out)
      × (get_field k out ≡ (
          if contains k allowed
          then elim (get_field k content) [
            | none ↦ none
            | some v ↦ some (apply_allow_list allowed v)
          ]
          else none))
unfolding apply_allow_list get_field
apply_allow_list-get_field k allowed content = (
  select allowed (apply_fields allowed content) no_fields,
  refl,
  rw
      (
        get_field-select k allowed (apply_fields allowed content) no_fields,
        get_field-apply_fields k allowed content,
      )
      (chosen-none (contains k allowed) _),
)
