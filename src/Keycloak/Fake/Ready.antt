-- ===== src/Keycloak/Fake/Ready.antt =====
-- An object of a realm that a pass may enforce, and the payload of its spec.
use keycloak_operator.Base.{ℕ, false, true, none, some, ◌≡◌, refl, ◌∙◌, ◌==◌}
use keycloak_operator.Errors.{ok}
use keycloak_operator.Json.{string, object, Fields, lookup, IsWellFields}
use keycloak_operator.Json.Laws.{lookup-insert}
use keycloak_operator.Json.Structs.{find, encode}
use keycloak_operator.Json.Structs.Laws.{HaveMaps}
use keycloak_operator.Json.Structs.Nulls.{HasNoNulls}
use keycloak_operator.Json.Text.{marshal, sort_keys}
use keycloak_operator.Api.{
  Object, adoption_fail_if_exists, finalizer_name, managed_annotation, managed_value,
}
use keycloak_operator.Api.Specs.Realm.{RealmSpec}
use keycloak_operator.Api.Specs.RealmTags.{realm_fields}
use keycloak_operator.Platform.{Cluster}
use keycloak_operator.Drivers.Marker.{stamp_string_attribute}
use keycloak_operator.Drivers.Payloads.{SpecKind}
use keycloak_operator.Drivers.Realm.{realm_driver}
use keycloak_operator.Drivers.Stamped.{
  spec_json-IsWell, lookup-spec_map, spec_map_of-HasNoNulls, stamp_string_attribute-HasNoNulls,
  stamp_string_attribute-IsWellFields,
}
use keycloak_operator.Engine.Encoding.{spec_map_of-IsWellFields}
use keycloak_operator.Engine.Lifecycle.{spec_map_of}
use keycloak_operator.Keycloak.Client.{Session}
use keycloak_operator.Keycloak.Mappings.{text_at}
use keycloak_operator.Keycloak.Fake.State.{Server}

-- The part of the world that the operator shares with the server.
abbrev pub shared : {K : Type 0} → K × (Session × Server) → Session × Server
shared w = w.1

abbrev pub marked_payload : Fields → Fields
marked_payload m = stamp_string_attribute m managed_annotation managed_value

-- An object that is not being deleted, has the finalizer, may manage its realm and needs no Secret,
-- with `m` as the map of its spec.
pub record IsReady {W : Type 0} (cluster : Cluster RealmSpec W) (resync : ℕ)
    (base : Object RealmSpec) (m : Fields) : Type 0 where
  pub alive : base.deleting ≡ false
  pub finalizer : cluster.contains_finalizer base.finalizers finalizer_name ≡ true
  pub free : (realm_driver cluster).protected base ≡ none
  pub no_secret : base.spec.smtp_server_secret_ref ≡ none
  pub maps : HaveMaps (realm_fields base.spec)
  pub encoded : spec_map_of cluster (realm_driver cluster) resync base ≡ ok m

-- One that may take up an existing realm, and whose annotation records its present spec.
pub record IsApplied {W : Type 0} (cluster : Cluster RealmSpec W) (resync : ℕ)
    (base : Object RealmSpec) (m : Fields) : Type 0 where
  pub ready : IsReady cluster resync base m
  pub policy : (((realm_driver cluster).spec base.spec).adoption == adoption_fail_if_exists) ≡ false
  pub recorded : base.last_applied ≡ marshal (object m)

module _ {W : Type 0} (cluster : Cluster RealmSpec W) (resync : ℕ) (base : Object RealmSpec)
    (m : Fields) (ready : IsReady cluster resync base m) where
  pub m-IsWellFields : IsWellFields m
  m-IsWellFields =
      spec_map_of-IsWellFields cluster (realm_driver cluster) resync base m
        (spec_json-IsWell SpecKind.realm cluster resync base ready.maps) ready.encoded

  pub marked_payload-IsWellFields : IsWellFields (marked_payload m)
  marked_payload-IsWellFields =
      stamp_string_attribute-IsWellFields m managed_annotation managed_value m-IsWellFields

  pub marked_payload-HasNoNulls : HasNoNulls (marked_payload m)
  marked_payload-HasNoNulls =
      stamp_string_attribute-HasNoNulls m managed_annotation managed_value
        (spec_map_of-HasNoNulls SpecKind.realm cluster resync base ready.maps m ready.encoded)

  -- The payload names the realm and has no id.
  lookup-realm : lookup "realm" (marked_payload m) ≡ some (string base.spec.head.realm)
  unfolding stamp_string_attribute find encode realm_fields sort_keys realm_driver
  lookup-realm =
      lookup-insert "attributes" "realm" _ m
      ∙ lookup-spec_map SpecKind.realm cluster resync base ready.maps m ready.encoded "realm"

  pub marked-names_realm : text_at "realm" (marked_payload m) ≡ base.spec.head.realm
  marked-names_realm = rw (text_at, lookup-realm) refl

  pub marked-has_no_id : lookup "id" (marked_payload m) ≡ none
  unfolding stamp_string_attribute find encode realm_fields sort_keys realm_driver
  marked-has_no_id =
      lookup-insert "attributes" "id" _ m
      ∙ lookup-spec_map SpecKind.realm cluster resync base ready.maps m ready.encoded "id"
