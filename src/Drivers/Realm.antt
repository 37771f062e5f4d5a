-- ===== src/Drivers/Realm.antt =====
-- driver_realm.go
use keycloak_operator.Base.{
  String, ◌<>◌, false, Option, none, some, List, [], ◌∷◌, ◌==◌, if◌then◌else◌,
}
use keycloak_operator.Errors.{quote}
use keycloak_operator.World.{Op, return, ◌>>?◌}
use keycloak_operator.Json.{string, object, Fields, end, lookup, insert, as_object}
use keycloak_operator.Api.{
  Object, managed_annotation, managed_value, allow_protected_annotation, is_protected_realm_name,
}
use keycloak_operator.Api.Policy.{realm_accessors}
use keycloak_operator.Platform.{Cluster}
use keycloak_operator.Driver.{Driver}
use keycloak_operator.Keycloak.Resources.{get_realm, create_realm, update_realm, delete_realm}
use keycloak_operator.Drivers.Marker.{stamp_string_attribute, managed_by_string_attribute}
use keycloak_operator.Drivers.Secrets.{read_secret_values}
use keycloak_operator.Json.Structs.{struct}
use keycloak_operator.Api.Specs.Realm.{RealmSpec}
use keycloak_operator.Api.Specs.RealmTags.{realm_fields}

-- The loop that writes the values into the map.
unfoldable pub set_values : List (String × String) → Fields → Fields
set_values [] m = m
set_values ((key, value) ∷ values) m = set_values values (insert key (string value) m)

-- The values written into the map at a key of the payload, which is made if it is not there.
unfoldable pub inject_values : String → List (String × String) → Fields → Fields
unfolding set_values
inject_values key values payload = elim (as_object (lookup key payload)) [
  | none ↦ insert key (object (set_values values end)) payload
  | some m ↦ insert key (object (set_values values m)) payload
]

module _ {W : Type 0} (cluster : Cluster RealmSpec W) where
  unfoldable pub realm_prepare_payload : Object RealmSpec → Fields → Op W Fields
  unfolding inject_values
  realm_prepare_payload o payload = elim o.spec.smtp_server_secret_ref [
    | none ↦ return payload
    | some selector ↦ read_secret_values cluster o.namespace selector >>? λ values.
        return (inject_values "smtpServer" values payload)
  ]

  unfoldable pub realm_protected : Object RealmSpec → Option String
  unfolding is_protected_realm_name
  realm_protected o =
      if is_protected_realm_name o.spec.head.realm
      then (if o.allow_protected == "true"
          then none
          else some (
              "realm "
              <> quote o.spec.head.realm
              <> " is protected; annotate the resource with "
              <> allow_protected_annotation
              <> ": \"true\" to manage it deliberately"))
      else none

  unfoldable pub realm_driver : Driver RealmSpec W
  realm_driver = record {
    get = λ kc o. get_realm kc o.spec.head.realm;
    id = λ remote. "";
    create = λ kc o payload. create_realm kc payload;
    update = λ kc o id payload. update_realm kc o.spec.head.realm payload;
    delete = λ kc o. delete_realm kc o.spec.head.realm;
    managed_marker = λ payload. stamp_string_attribute payload managed_annotation managed_value;
    is_managed = managed_by_string_attribute;
    prepare_payload = realm_prepare_payload;
    post_apply = λ kc remote. return false;
    protected = realm_protected;
    spec = λ s. realm_accessors s.head;
    spec_json = λ s. object (struct (realm_fields s));
    operator_fields =
        "keycloakRef" ∷ "adoptionPolicy" ∷ "deletionPolicy" ∷ "smtpServerSecretRef" ∷ [];
  }
