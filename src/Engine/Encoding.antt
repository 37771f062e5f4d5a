-- ===== src/Engine/Encoding.antt =====
-- The spec as the payload and the annotation know it.
use mathlib.Core.Path.{subst}
use mathlib.Core.Option.{some-injective}
use keycloak_operator.LastApplied.Effective.{marshal-object-ne-empty}
use keycloak_operator.Base.{
  ℕ, String, true, some, inl, inr, none, List, [], ◌∷◌, ◌≡◌, refl, ◌∙◌, arith, if◌then◌else◌,
}
use keycloak_operator.Errors.{ok, Result-cases}
use keycloak_operator.Json.{Value, null, object, Fields, lookup, delete, IsWell, IsWellFields}
use keycloak_operator.Json.Laws.{lookup-delete, delete-IsWellFields}
use keycloak_operator.Json.Text.{marshal, sort_keys, sort_fields, as_map}
use keycloak_operator.Json.RoundTrip.{
  unmarshal_map-marshal, unmarshal-marshal, lookup-sort_fields, sort_keys-IsWell,
}
use keycloak_operator.Api.{Object}
use keycloak_operator.Platform.{Cluster}
use keycloak_operator.Driver.{Driver}
use keycloak_operator.Drivers.Secrets.{contains}
use keycloak_operator.Engine.{to_json_map, strip}
use keycloak_operator.Engine.Lifecycle.{spec_map_of, is_ours}
use mathlib.Core.Option

lookup-strip :
    (fs : List String) (m : Fields) (k : String)
    → lookup k (strip fs m) ≡ (if contains k fs then none else lookup k m)
unfolding strip
lookup-strip [] m k = refl
lookup-strip (f ∷ fs) m k = lookup-strip fs (delete f m) k ∙ ground (arith, lookup-delete f k m)

to_json_map-object : (m : Fields) → IsWellFields m → to_json_map (object m) ≡ ok (sort_fields m)
unfolding to_json_map
to_json_map-object m w = ground (arith, unmarshal_map-marshal m w)

-- The operator's own fields never reach the payload, and no other field is lost: where the spec
-- encodes to an object, the map that is enforced and recorded has under each key what the object
-- has, with the keys inside sorted, and nothing under the fields of the operator.
pub lookup-spec_map_of :
    {T W : Type 0} (cluster : Cluster T W) (drv : Driver T W) (resync : ℕ) (base : Object T)
    (m : Fields)
    → drv.spec_json base.spec ≡ object m
    → IsWellFields m
    → (n : Fields) × (spec_map_of cluster drv resync base ≡ ok n)
      × ((k : String)
          → lookup k n
            ≡ (if contains k drv.operator_fields then none else Option.map sort_keys (lookup k m)))
unfolding spec_map_of
lookup-spec_map_of cluster drv resync base m e w = (
  strip drv.operator_fields (sort_fields m),
  ground (arith, e, to_json_map-object m w),
  λ k. lookup-strip drv.operator_fields (sort_fields m) k ∙ rw (lookup-sort_fields k m w),
)

as_map-IsWell : (v : Value) (m : Fields) → IsWell v → as_map v ≡ some m → IsWellFields m
as_map-IsWell null m w e = subst IsWellFields (some-injective _ _ e) tt
as_map-IsWell (object m) n w e = subst IsWellFields (some-injective _ _ e) w
as_map-IsWell _ m w e = cc

strip-IsWellFields : (fs : List String) (m : Fields) → IsWellFields m → IsWellFields (strip fs m)
unfolding strip
strip-IsWellFields [] m w = w
strip-IsWellFields (f ∷ fs) m w = strip-IsWellFields fs (delete f m) (delete-IsWellFields f m w)

to_json_map-IsWellFields :
    (v : Value) (m : Fields) → IsWell v → to_json_map v ≡ ok m → IsWellFields m
unfolding to_json_map
to_json_map-IsWellFields v m w e =
    as_map-IsWell (sort_keys v) m (sort_keys-IsWell v w) (ground (arith, unmarshal-marshal v w))

module _ {T W : Type 0} (cluster : Cluster T W) (drv : Driver T W) (resync : ℕ)
    (base : Object T) where
  pub spec_map_of-IsWellFields :
      (m : Fields)
      → IsWell (drv.spec_json base.spec)
      → spec_map_of cluster drv resync base ≡ ok m
      → IsWellFields m
  unfolding spec_map_of
  spec_map_of-IsWellFields m w e = elim (Result-cases (to_json_map (drv.spec_json base.spec))) [
    | inl (n, p) ↦
        subst IsWellFields (ground arith)
          (strip-IsWellFields drv.operator_fields n (to_json_map-IsWellFields _ n w p))
    | inr (x, p) ↦ absurd (ground arith)
  ]

  pub applied-is_ours :
      (spec_map remote : Fields)
      → base.last_applied ≡ marshal (object spec_map)
      → is_ours cluster drv resync base remote ≡ true
  applied-is_ours spec_map remote e = ground (arith, e, marshal-object-ne-empty spec_map)
