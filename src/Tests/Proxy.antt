-- ===== src/Tests/Proxy.antt =====
-- Runs of src/proxy/bopla.interceptor.ts on an order with a nested customer.
use zt_access_gateway.Common.{String, ◌≡◌, refl, ◌⊎◌, Bool, true, none, some, List, [], ◌∷◌, ◌==◌}
use zt_access_gateway.Request.{contains}
use zt_access_gateway.Proxy.{
  Json, Fields, FieldPolicy, get_field, put_field, select, apply_allow_list, role_fields,
  first_role, find_allowed_fields, passes_through, strip, number_of, text_of, object, no_fields,
  entry,
}
use zt_access_gateway.Proxy.Allowed.{AllKeys, strip-AllKeys}

abbrev same_route : String → String → Bool
same_route path pattern' = path == pattern'

abbrev orders_policy : FieldPolicy
orders_policy = ("/orders", ("user", "id" ∷ "customer" ∷ []) ∷ []) ∷ []

abbrev order_content : Fields
order_content = entry "id" (number_of 7) (
    entry "margin" (number_of 40) (
      entry "customer" (object (entry "id" (number_of 3) (entry "iban" (text_of "x") no_fields)))
        no_fields))

stripped_here :
    strip same_route orders_policy (some (object order_content)) "/orders" ("user" ∷ [])
    ≡ some (
        object (
          entry "id"
            (number_of 7)
            (entry "customer" (object (entry "id" (number_of 3) no_fields)) no_fields)))
unfolding strip contains find_allowed_fields first_role role_fields apply_allow_list select
    get_field put_field
stripped_here = refl

strip-AllKeys_example :
    ((find_allowed_fields same_route orders_policy "/orders" ("user" ∷ []) ≡ none)
      × (strip same_route orders_policy (some (object order_content)) "/orders" ("user" ∷ [])
          ≡ some (object no_fields)))
    ⊎ ((allowed : List String) × (find_allowed_fields same_route orders_policy "/orders"
            ("user" ∷ [])
          ≡ some allowed)
        × (((passes_through allowed ≡ true)
              × (strip same_route orders_policy
                    (some (object order_content))
                    "/orders"
                    ("user" ∷ [])
                  ≡ some (object order_content)))
            ⊎ ((out : Json) × (strip same_route orders_policy
                    (some (object order_content))
                    "/orders"
                    ("user" ∷ [])
                  ≡ some out)
                × AllKeys allowed out)))
unfolding contains
strip-AllKeys_example =
    strip-AllKeys same_route orders_policy (object order_content) "/orders" ("user" ∷ []) refl
