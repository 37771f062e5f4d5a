-- ===== src/Tests/Helpers.antt =====
-- The helpers of the drivers at concrete data.
use keycloak_operator.Base.{String, true, List, [], ◌∷◌, ◌≡◌, refl}
use keycloak_operator.Json.{string, Fields, end, field}
use keycloak_operator.Api.{managed_annotation, managed_value}
use keycloak_operator.Drivers.Marker.{
  stamp_string_attribute, stamp_slice_attribute, managed_by_string_attribute,
  managed_by_slice_attribute, stamped_is_managed,
}
use keycloak_operator.Drivers.Sets.{without}

-- Attributes that are no map are replaced.
abbrev payload : Fields
payload = field "name" (string "web") (field "attributes" (string "none") end)

stamped_is_managed_example :
    (managed_by_string_attribute (stamp_string_attribute payload managed_annotation managed_value)
      ≡ true)
    × (managed_by_slice_attribute (stamp_slice_attribute payload managed_annotation managed_value)
        ≡ true)
stamped_is_managed_example = stamped_is_managed payload

abbrev desired : List (String × String)
desired = ("view", "1") ∷ ("edit", "2") ∷ []

abbrev assigned : List (String × String)
assigned = ("edit", "2") ∷ ("admin", "3") ∷ []

correction_run :
    (without assigned desired ≡ ("view", "1") ∷ [])
    × (without desired assigned ≡ ("admin", "3") ∷ [])
unfolding without
correction_run = (refl, refl)
