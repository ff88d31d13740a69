-- ===== src/Proxy.antt =====
-- src/proxy/bopla.interceptor.ts (`strip`). The glob matcher of the routes is a parameter; the
-- field policy is a list in the order of its file. A value is a JSON value or one that the code
-- hands on whole (a Buffer, a date); `none` is `undefined`. The values of an object are filtered
-- before its fields are selected, which comes to the same, since filtering changes nothing else.
pub mod Allowed
pub mod Kept
pub mod Registry
pub mod Dns
pub mod Headers
pub mod Retry
pub mod Forward
use zt_access_gateway.Common.{
  ℕ, String, Bool, false, Option, none, some, List, [], ◌∷◌, ◌==◌, if◌then◌else◌,
}
use zt_access_gateway.Request.{contains}

mutual
  pub data Json : Type 0 where
    null : Json
    bool_of : Bool → Json
    number_of : ℕ → Json
    text_of opaque : String → Json
    array : Items → Json
    object : Fields → Json

  pub data Items : Type 0 where
    no_items : Items
    item : Json → Items → Items

  pub data Fields : Type 0 where
    no_fields : Fields
    entry : String → Json → Fields → Fields

-- The patterns with the fields allowed to each role.
abbrev pub FieldPolicy : Type 0
FieldPolicy = List (String × List (String × List String))

unfoldable pub get_field : String → Fields → Option Json
get_field k no_fields = none
get_field k (entry j v rest) = let later = get_field k rest in if j == k then some v else later

-- `out[field] = value`.
unfoldable pub put_field : String → Json → Fields → Fields
put_field k v no_fields = entry k v no_fields
put_field k v (entry j w rest) =
    let later = put_field k v rest in if j == k then entry j v rest else entry j w later

-- The loop over the allowed fields, with what it has written so far.
unfoldable pub select : List String → Fields → Fields → Fields
unfolding get_field put_field
select [] source out = out
select (name ∷ names) source out = elim (get_field name source) [
  | none ↦ select names source out
  | some v ↦ select names source (put_field name v out)
]

unfoldable mutual
  unfolding select

  pub apply_allow_list : List String → Json → Json
  apply_allow_list allowed null = null
  apply_allow_list allowed (bool_of b) = bool_of b
  apply_allow_list allowed (number_of n) = number_of n
  apply_allow_list allowed (text_of s) = text_of s
  apply_allow_list allowed (opaque s) = opaque s
  apply_allow_list allowed (array items) = array (apply_items allowed items)
  apply_allow_list allowed (object content) =
      object (select allowed (apply_fields allowed content) no_fields)

  pub apply_items : List String → Items → Items
  apply_items allowed no_items = no_items
  apply_items allowed (item v rest) = item (apply_allow_list allowed v) (apply_items allowed rest)

  pub apply_fields : List String → Fields → Fields
  apply_fields allowed no_fields = no_fields
  apply_fields allowed (entry k v rest) =
      entry k (apply_allow_list allowed v) (apply_fields allowed rest)

unfoldable pub role_fields : String → List (String × List String) → Option (List String)
role_fields role [] = none
role_fields role ((r, names) ∷ rest) =
    let later = role_fields role rest in if r == role then some names else later

-- The first of the roles that the pattern knows.
unfoldable pub first_role : List (String × List String) → List String → Option (List String)
unfolding role_fields
first_role role_map [] = none
first_role role_map (role ∷ roles) = elim (role_fields role role_map) [
  | none ↦ first_role role_map roles
  | some names ↦ some names
]

-- The first pattern that matches decides.
unfoldable pub find_allowed_fields :
    (String → String → Bool) → FieldPolicy → String → List String → Option (List String)
unfolding first_role
find_allowed_fields is_match [] path roles = none
find_allowed_fields is_match ((pattern', role_map) ∷ rest) path roles =
    let later = find_allowed_fields is_match rest path roles in
    if is_match path pattern' then first_role role_map roles else later

abbrev pub passes_through : List String → Bool
passes_through [] = false
passes_through (f ∷ fs) = f == "*"

unfoldable pub strip :
    (String → String → Bool) → FieldPolicy → Option Json → String → List String → Option Json
unfolding contains find_allowed_fields apply_allow_list
strip is_match policy body path roles =
    if contains "admin" roles then body else elim (find_allowed_fields is_match policy path roles) [
      | none ↦ some (object no_fields)
      | some allowed ↦
          if passes_through allowed
          then body
          else elim body [ none ↦ none | some v ↦ some (apply_allow_list allowed v) ]
    ]
