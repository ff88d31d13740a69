-- ===== src/Proxy/Registry.antt =====
-- src/proxy/service-registry.service.ts. A path is read by characters, which are the code units of
-- a path in ASCII.
use Prim.Native.Char.{Char, char, code}
use text.Mathlib.TextLemmas.{nil-append, cons-append, append_assoc}
use zt_access_gateway.Common.{
  ℕ, String, ◌≡◌, refl, sym, ap, ◌∙◌, ◌≢◌, inl, inr, Bool, true, false, ◌||◌, Option, none, some,
  List, [], ◌∷◌, arith, ◌==◌, eq_iff, concat, nat_eq, if◌then◌else◌, Bool-cases,
}
use zt_access_gateway.JsMap.{get}

-- An empty address is no address.
unfoldable pub resolve : String → List (String × String) → Option String
unfolding get
resolve service registry = elim (get service registry) [
  | none ↦ none
  | some url ↦ if url == "" then none else some url
]

-- The text before the first slash.
unfoldable pub first_segment : String → String
first_segment String.[] = String.[]
first_segment (String.◌∷◌ c s) =
    let rest = first_segment s in if nat_eq (code c) b'/' then String.[] else String.◌∷◌ c rest

abbrev pub drop_slash : String → String
drop_slash String.[] = String.[]
drop_slash (String.◌∷◌ c s) = if nat_eq (code c) b'/' then s else String.◌∷◌ c s

unfoldable pub extract_service_name : String → Option String
extract_service_name path =
    if path == "" || path == "/"
    then none
    else let first = first_segment (drop_slash path) in if first == "" then none else some first

-- `path.slice(name.length)`
unfoldable pub slice_past : String → String → String
slice_past String.[] path = path
slice_past (String.◌∷◌ d name) String.[] = String.[]
slice_past (String.◌∷◌ d name) (String.◌∷◌ c path) = slice_past name path

unfoldable pub strip_prefix : String → String
strip_prefix path = elim (extract_service_name path) [
  | none ↦ path
  | some name ↦
      let remainder = slice_past (concat "/" name) path in
      if remainder == "" then "/" else remainder
]

unfoldable pub list_services : List (String × String) → List String
list_services [] = []
list_services ((name, url) ∷ rest) = name ∷ list_services rest

abbrev pub HasNoSlash : String → Type 0
HasNoSlash String.[] = Unit
HasNoSlash (String.◌∷◌ c s) = (code c ≢ b'/') × HasNoSlash s

-- Nothing, or a text that begins with a slash.
abbrev pub IsSubpath : String → Type 0
IsSubpath String.[] = Unit
IsSubpath (String.◌∷◌ c s) = code c ≡ b'/'

first_segment-append :
    (name rest : String)
    → HasNoSlash name
    → IsSubpath rest
    → first_segment (concat name rest) ≡ name
unfolding first_segment
first_segment-append String.[] String.[] h sub = refl
first_segment-append String.[] (String.◌∷◌ c s) h sub = rw nil-append (ground arith)
first_segment-append (String.◌∷◌ d name) rest h sub =
    rw cons-append (rw (first_segment-append name rest h.1 sub) (ground arith))

slice_past-append : (name rest : String) → slice_past name (concat name rest) ≡ rest
unfolding slice_past
slice_past-append String.[] rest = rw nil-append refl
slice_past-append (String.◌∷◌ d name) rest = rw cons-append (slice_past-append name rest)

-- 0 for the empty text, 1 for one character, 2 for more.
abbrev size_class : String → ℕ
size_class String.[] = 0
size_class (String.◌∷◌ c String.[]) = 1
size_class (String.◌∷◌ c (String.◌∷◌ d s)) = 2

ne-size_class : (s t : String) → size_class s ≢ size_class t → (s == t) ≡ false
ne-size_class s t differ = elim (Bool-cases (s == t)) [
  | inl same ↦ let e : s ≡ t = ground (arith, eq_iff s t) in absurd (differ (ap size_class e))
  | inr other ↦ other
]

abbrev is_empty : String → Bool
is_empty String.[] = true
is_empty (String.◌∷◌ c s) = false

append-ne_empty : (d : Char) (a b : String) → concat (String.◌∷◌ d a) b ≢ ""
append-ne_empty d a b e =
    let f : is_empty (String.◌∷◌ d (concat a b)) ≡ true =
      ap is_empty (sym (cons-append d a b) ∙ e) in
    ground (arith, f)

slash : Char
slash = char b'/' tt

extract_service_name-slash :
    (x name : String)
    → first_segment x ≡ name
    → name ≢ ""
    → x ≢ ""
    → extract_service_name (String.◌∷◌ slash x) ≡ some name
unfolding extract_service_name slash
extract_service_name-slash String.[] name seg some_name some_x = absurd (some_x refl)
extract_service_name-slash (String.◌∷◌ c x) name seg some_name some_x =
    rw
      (
        ne-size_class (String.◌∷◌ slash (String.◌∷◌ c x)) "" (ground arith),
        ne-size_class (String.◌∷◌ slash (String.◌∷◌ c x)) "/" (ground arith),
        seg,
      )
      (ground (arith, eq_iff name ""))

extract_service_name-concat :
    (name rest : String)
    → name ≢ ""
    → HasNoSlash name
    → IsSubpath rest
    → extract_service_name (concat "/" (concat name rest)) ≡ some name
unfolding slash
extract_service_name-concat String.[] rest some_name plain sub = absurd (some_name refl)
extract_service_name-concat (String.◌∷◌ d name) rest some_name plain sub =
    let x = concat (String.◌∷◌ d name) rest in
    let split : concat "/" x ≡ String.◌∷◌ slash x = rw (cons-append, nil-append) refl in
    rw split (
      extract_service_name-slash x (String.◌∷◌ d name)
        (first_segment-append (String.◌∷◌ d name) rest plain sub) some_name
        (append-ne_empty d name rest))

-- A path that is a slash, a service's name and a further path is routed to that service, and what
-- is forwarded is the further path, or a slash where there is none.
pub strip_prefix-concat :
    (name rest : String)
    → name ≢ ""
    → HasNoSlash name
    → IsSubpath rest
    → let path = concat "/" (concat name rest) in
      (extract_service_name path ≡ some name)
      × (strip_prefix path ≡ (if rest == "" then "/" else rest))
unfolding strip_prefix
strip_prefix-concat name rest some_name plain sub =
    let path = concat "/" (concat name rest) in
    let found = extract_service_name-concat name rest some_name plain sub in
    let cut : slice_past (concat "/" name) path ≡ rest =
      rw (sym (append_assoc "/" name rest)) (slice_past-append (concat "/" name) rest) in
    (found, ground arith)
